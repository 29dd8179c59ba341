-- ===== src/Witnesses/Trials.antt =====
-- The theorems on the loop of the connector with its connections at concrete inputs.
use libcfd.Prelude.{[], ◌≡◌, refl, true, false, List, ◌∷◌, none, some, ok}
use libcfd.Edge.Error.{is_permanent}
use libcfd.Edge.Connector.{
  EdgeOptions, auto, start, try_edges, after_attempt, run_round, discover, after_edges,
  continue_run, count_failures, select_transport,
}
use libcfd.Edge.Connector.Trials.{
  EdgeTrial, RoundTrial, run_trials, run_trials_from, round_of, attempt_edge, build_connection,
}
use libcfd.Edge.Connector.Trials.Fired.{fired_from, run_trials-fired}
use libcfd.Edge.Runtime.{shutdown_first, served_first, joined, run_h2, failed}

abbrev options : EdgeOptions
options = record { transport = auto; backoff = 1_000; grace_period = 30; maximum_quic_failures = 1 }

-- Over QUIC the connection times out; over HTTP/2 the shutdown ends it.
abbrev trial : EdgeTrial
trial = record {
  shutdown_first = false;
  connection = none;
  quic_world = record {
    registration = none;
    now = 0;
    selected = served_first (joined (ok tt));
    fired_later = false;
    timed_out = false;
  };
  h2_world = record {
    saw_registration = true;
    now = 7;
    selected = shutdown_first;
    drained = none;
    fired_later = true;
  };
  ended_at = 9;
}

abbrev trials : List RoundTrial
trials =
    record { edges = ok (trial ∷ []); random = 0; shutdown_in_sleep = false }
    ∷ record {
      edges = ok (record trial { connection = some (ok tt) } ∷ []);
      random = 0;
      shutdown_in_sleep = false;
    }
    ∷ []

ends : (run_trials options trials).result ≡ some (ok tt)
unfolding run_trials run_trials_from round_of attempt_edge build_connection run_round discover
    after_edges try_edges after_attempt continue_run count_failures select_transport run_h2 failed
    is_permanent
ends = refl

run_trials-fired_example : fired_from options trials start ≡ true
run_trials-fired_example = run_trials-fired options trials ends
