-- ===== src/Edge/Connector/Trials/Fired.antt =====
-- When the loop ends in success.
use libcfd.Prelude.{
  [], ℕ, ◌≡◌, inl, inr, refl, ap, Bool, true, false, ◌||◌, List, ◌∷◌, some, Result, ok, err, map,
  arith, if◌then◌else◌, Bool-cases,
}
use libcfd.Edge.Error.{Error, is_permanent}
use libcfd.Edge.Connector.{
  EdgeOptions, Transport, quic, h2, auto, served, EdgesOutcome, returned, exhausted, after_attempt,
  try_edges, Round, Connector, RoundEnd, finished, again, after_edges, discover, run_round,
  trace_of, transport_of, Run, continue_run, start, is_duplicate, Trace,
}
use libcfd.Edge.Connector.Trials.{
  EdgeTrial, build_connection, run_connection, run_built, unless_shut_down, attempt_edge,
  RoundTrial, discovery_of, round_of, run_trials_from, run_trials,
}
use libcfd.Edge.Runtime.{failed, is_fired, run_quic-IsOrderly, run_h2-fired}

-- Whether the shutdown is fired while an edge is tried over a transport.
abbrev connection_fired : Transport → EdgeTrial → Bool
connection_fired quic trial = is_fired trial.quic_world.selected trial.quic_world.fired_later
connection_fired _ trial = is_fired trial.h2_world.selected trial.h2_world.fired_later

abbrev edge_fired : Transport → EdgeTrial → Bool
edge_fired transport trial = trial.shutdown_first || connection_fired transport trial

abbrev any_fired : Transport → List EdgeTrial → Bool
any_fired transport [] = false
any_fired transport (trial ∷ trials) = edge_fired transport trial || any_fired transport trials

abbrev found_fired : Transport → Result Error (List EdgeTrial) → Bool
found_fired transport (err e) = false
found_fired transport (ok edges) = any_fired transport edges

abbrev round_fired : Transport → RoundTrial → Bool
round_fired transport trial = trial.shutdown_in_sleep || found_fired transport trial.edges

abbrev fired_after : RoundEnd → (Connector → Bool) → Bool
fired_after (finished r) next = false
fired_after (again c) next = next c

-- Whether the shutdown is fired in one of the rounds that are run.
pub fired_from : EdgeOptions → List RoundTrial → Connector → Bool
fired_from options [] c = false
fired_from options (trial ∷ trials) c =
    let transport = transport_of options c in
    round_fired transport trial
    || fired_after (run_round options (round_of transport trial) c) (fired_from options trials)

run_connection-fired :
    (t : Transport) (trial : EdgeTrial)
    → (run_connection t trial).result ≡ ok tt
    → connection_fired t trial ≡ true
run_connection-fired quic trial e =
    let first = ((run_quic-IsOrderly trial.quic_world).0 e).0 in
    ap (λ s. is_fired s trial.quic_world.fired_later) first
run_connection-fired h2 trial e = run_h2-fired trial.h2_world e
run_connection-fired auto trial e = run_h2-fired trial.h2_world e

run_built-fired :
    (t : Transport) (trial : EdgeTrial) (built : Result Error (Unit {0}))
    → (run_built t trial built).result ≡ ok tt
    → connection_fired t trial ≡ true
unfolding failed
run_built-fired t trial (ok u) e = run_connection-fired t trial e
run_built-fired t trial (err x) e = cc

or_right : (a b : Bool) → b ≡ true → (a || b) ≡ true
or_right a b h = ground arith

or_left : (a b : Bool) → a ≡ true → (a || b) ≡ true
or_left a b h = ground arith

-- An attempt that did not succeed leaves the end to one of the two ways to go on.
after_attempt-fired :
    (r : Result Error (Unit {0})) (skipped rest : EdgesOutcome) (now later : Bool)
    → after_attempt r skipped rest ≡ returned (ok tt)
    → (r ≡ ok tt → now ≡ true)
    → (skipped ≡ returned (ok tt) → later ≡ true)
    → (rest ≡ returned (ok tt) → later ≡ true)
    → (now || later) ≡ true
unfolding after_attempt
after_attempt-fired (ok u) skipped rest now later e n s r = or_left now later (n refl)
after_attempt-fired (err x) skipped rest now later e n s r = elim (Bool-cases (is_duplicate x)) [
  | inl duplicate ↦ or_right now later (s (rw duplicate at e))
  | inr other ↦ elim (Bool-cases (is_permanent x)) [
    | inl permanent ↦ cc (rw (other, permanent) at e)
    | inr retried ↦ or_right now later (r (rw (other, retried) at e))
  ]
]

tried-fired :
    (options : EdgeOptions) (t : Transport) (trial : EdgeTrial) (edges : List EdgeTrial) (a : ℕ)
    (b first : Bool)
    → ((a' : ℕ) (b' : Bool)
        → try_edges options t (map (attempt_edge t) edges) a' b' ≡ returned (ok tt)
        → any_fired t edges ≡ true)
    → (let attempt = run_built t trial (build_connection t trial.connection) in
        try_edges options t
          (unless_shut_down first (served attempt trial.ended_at) ∷ map (attempt_edge t) edges)
          a
          b
        ≡ returned (ok tt))
    → ((first || connection_fired t trial) || any_fired t edges) ≡ true
unfolding try_edges
tried-fired options t trial edges a b true ih e = refl
tried-fired options t trial edges a b false ih e =
    let built = build_connection t trial.connection in
    after_attempt-fired (run_built t trial built).result _ _ (connection_fired t trial)
      (any_fired t edges) e (run_built-fired t trial built) (ih _ _) (ih _ _)

try_edges-fired :
    (options : EdgeOptions) (t : Transport) (edges : List EdgeTrial) (a : ℕ) (b : Bool)
    → try_edges options t (map (attempt_edge t) edges) a b ≡ returned (ok tt)
    → any_fired t edges ≡ true
unfolding try_edges attempt_edge
try_edges-fired options t [] a b e = cc
try_edges-fired options t (trial ∷ edges) a b e =
    tried-fired options t trial edges a b trial.shutdown_first
      (λ a' b'. try_edges-fired options t edges a' b') e

sleep-fired :
    (b : Bool) (c : Connector)
    → (if b then finished (ok tt) else again c) ≡ finished (ok tt)
    → b ≡ true
sleep-fired true c e = refl
sleep-fired false c e = cc

after_edges-fired :
    (options : EdgeOptions) (round : Round) (c : Connector) (o : EdgesOutcome) (later : Bool)
    → (o ≡ returned (ok tt) → later ≡ true)
    → after_edges options round c o ≡ finished (ok tt)
    → (round.shutdown_in_sleep || later) ≡ true
unfolding after_edges
after_edges-fired options round c (returned r) later h e =
    or_right round.shutdown_in_sleep later (h (cc))
after_edges-fired options round c (exhausted a b) later h e =
    or_left round.shutdown_in_sleep later (sleep-fired round.shutdown_in_sleep _ e)

discover-fired :
    (options : EdgeOptions) (round : Round) (c : Connector) (edges : Result Error (List EdgeTrial))
    → (let t = transport_of options c in
        discover options round c (discovery_of t edges) ≡ finished (ok tt)
        → (round.shutdown_in_sleep || found_fired t edges) ≡ true)
unfolding discover
discover-fired options round c (err x) e =
    or_left round.shutdown_in_sleep false (sleep-fired round.shutdown_in_sleep _ e)
discover-fired options round c (ok edges) e =
    after_edges-fired options round c _ (any_fired (transport_of options c) edges)
      (try_edges-fired options (transport_of options c) edges c.attempt false) e

run_round-fired :
    (options : EdgeOptions) (trial : RoundTrial) (c : Connector)
    → (let t = transport_of options c in
        run_round options (round_of t trial) c ≡ finished (ok tt) → round_fired t trial ≡ true)
unfolding run_round round_of
run_round-fired options trial c e =
    discover-fired options (round_of (transport_of options c) trial) c trial.edges e

continued-fired :
    (trace : Trace) (end : RoundEnd) (here : Bool) (next : Connector → Run)
    (later : Connector → Bool)
    → (end ≡ finished (ok tt) → here ≡ true)
    → ((c : Connector) → (next c).result ≡ some (ok tt) → later c ≡ true)
    → (continue_run trace end next).result ≡ some (ok tt)
    → (here || fired_after end later) ≡ true
unfolding continue_run
continued-fired trace (finished r) here next later h n e = or_left here false (h (cc))
continued-fired trace (again c) here next later h n e = or_right here (later c) (n c e)

run_trials_from-fired :
    (options : EdgeOptions) (trials : List RoundTrial) (c : Connector)
    → (run_trials_from options trials c).result ≡ some (ok tt)
    → fired_from options trials c ≡ true
unfolding run_trials_from fired_from
run_trials_from-fired options [] c e = cc
run_trials_from-fired options (trial ∷ trials) c e =
    let t = transport_of options c in
    continued-fired (trace_of options (round_of t trial) c) (run_round options (round_of t trial) c)
      (round_fired t trial) (run_trials_from options trials) (fired_from options trials)
      (run_round-fired options trial c) (run_trials_from-fired options trials) e

-- The loop returns success only where the shutdown was fired in one of the rounds that it ran: in a
-- sleep, before the end of an attempt, or on the connection of one, over the transport of the round.
pub run_trials-fired :
    (options : EdgeOptions) (trials : List RoundTrial)
    → (run_trials options trials).result ≡ some (ok tt)
    → fired_from options trials start ≡ true
unfolding run_trials
run_trials-fired options trials e = run_trials_from-fired options trials start e
