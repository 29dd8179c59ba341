-- ===== src/Edge/Connector/Trials.antt =====
-- src/edge/connector/mod.rs with runtime.rs: the loop of `run` over what the network gives, where each
-- attempt is a connection that is built and run.
pub mod Fired
use libcfd.Prelude.{
  [], ℕ, Bool, true, false, List, ◌∷◌, Option, none, some, Result, ok, err, map, ◌||◌,
}
use libcfd.Edge.Error.{Error, edge, quic as quic_error, h2 as h2_error}
use libcfd.Edge.Connector.{
  EdgeOptions, Transport, quic, h2, auto, ServeAttempt, EdgeOutcome, shut_down, served, Discovery,
  failed as discovery_failed, found, Round, Connector, RoundEnd, run_round, trace_of, transport_of,
  Run, continue_run, start,
}
use libcfd.Edge.Runtime.{QuicWorld, H2World, QuicRun, run_quic, run_h2, failed}

-- What is met at an edge: whether the shutdown comes before the end of the attempt, the connection
-- (`none` if it times out), its run over either transport, and the time of the end.
pub record EdgeTrial : Type 0 where
  pub shutdown_first : Bool
  pub connection : Option (Result Error (Unit {0}))
  pub quic_world : QuicWorld
  pub h2_world : H2World
  pub ended_at : ℕ

abbrev timeout : Transport → Error
timeout quic = edge (quic_error "edge connection timed out")
timeout _ = edge (h2_error "edge connection timed out")

unfoldable pub build_connection :
    Transport → Option (Result Error (Unit {0})) → Result Error (Unit {0})
build_connection transport none = err (timeout transport)
build_connection transport (some r) = r

-- The loop does not ask for `auto`, which `select_transport` resolves.
abbrev pub run_connection : Transport → EdgeTrial → ServeAttempt
run_connection quic trial = (run_quic trial.quic_world).attempt
run_connection _ trial = run_h2 trial.h2_world

abbrev pub run_built : Transport → EdgeTrial → Result Error (Unit {0}) → ServeAttempt
run_built transport trial (ok _) = run_connection transport trial
run_built transport trial (err e) = failed e

abbrev pub unless_shut_down : Bool → EdgeOutcome → EdgeOutcome
unless_shut_down true outcome = shut_down
unless_shut_down false outcome = outcome

unfoldable pub attempt_edge : Transport → EdgeTrial → EdgeOutcome
unfolding build_connection
attempt_edge transport trial = unless_shut_down trial.shutdown_first (
    served (run_built transport trial (build_connection transport trial.connection)) trial.ended_at)

pub record RoundTrial : Type 0 where
  pub edges : Result Error (List EdgeTrial)
  pub random : ℕ
  pub shutdown_in_sleep : Bool

abbrev pub discovery_of : Transport → Result Error (List EdgeTrial) → Discovery
discovery_of transport (err e) = discovery_failed e
discovery_of transport (ok edges) = found (map (attempt_edge transport) edges)

unfoldable pub round_of : Transport → RoundTrial → Round
unfolding attempt_edge
round_of transport trial = record {
  discovery = discovery_of transport trial.edges;
  random = trial.random;
  shutdown_in_sleep = trial.shutdown_in_sleep;
}

unfoldable pub run_trials_from : EdgeOptions → List RoundTrial → Connector → Run
unfolding round_of
run_trials_from options [] c = record { result = none; rounds = [] }
run_trials_from options (trial ∷ trials) c =
    let round = round_of (transport_of options c) trial in
    continue_run (trace_of options round c) (run_round options round c)
      (run_trials_from options trials)

unfoldable pub run_trials : EdgeOptions → List RoundTrial → Run
run_trials options trials = run_trials_from options trials start
