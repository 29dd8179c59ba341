-- ===== src/Edge/Connector.antt =====
-- src/edge/connector: transport selection, the reconnect delay and the loop of `EdgeConnector::run`,
-- with both transports compiled in. What the world decides enters as a list of rounds.
pub mod Trials
pub mod Backoff
pub mod Fallback
pub mod Ends
pub mod Attempts
use libcfd.Prelude.{
  [], ℕ, ◌-◌, Bool, true, false, ◌&&◌, ◌||◌, List, ◌∷◌, Option, none, some, Result, ok, err, leb,
  if◌then◌else◌, max, saturating_add_u8, saturating_add_u32,
}
use libcfd.Edge.Error.{Error, edge, duplicate_connection, is_permanent}
use libcfd.Edge.Connector.Backoff.{retry_delay}

pub data Transport : Type 0 where
  quic h2 auto : Transport

-- The options that the loop reads; durations are in nanoseconds.
pub record EdgeOptions : Type 0 where
  pub transport : Transport
  pub backoff : ℕ
  pub grace_period : ℕ
  pub maximum_quic_failures : ℕ

unfoldable default_options : EdgeOptions
default_options = record {
  transport = auto;
  backoff = 1_000_000_000;
  grace_period = 30_000_000_000;
  maximum_quic_failures = 5;
}

unfoldable pub select_transport : Transport → ℕ → ℕ → Transport
select_transport quic quic_failures maximum_quic_failures = quic
select_transport h2 quic_failures maximum_quic_failures = h2
select_transport auto quic_failures maximum_quic_failures =
    if leb maximum_quic_failures quic_failures then h2 else quic

-- The outcome of a connection; `registered_at` is the time of registration, if there was one.
pub record ServeAttempt : Type 0 where
  pub result : Result Error (Unit {0})
  pub registered_at : Option ℕ
  pub quic_timed_out : Bool

-- What happens at one edge address: the shutdown comes first, or the attempt ends at a time.
pub data EdgeOutcome : Type 0 where
  shut_down : EdgeOutcome
  served : ServeAttempt → ℕ → EdgeOutcome

-- Discovery fails, or finds an address for each of the outcomes.
pub data Discovery : Type 0 where
  failed : Error → Discovery
  found : List EdgeOutcome → Discovery

-- A round of the loop: discovery, the random eight bytes of the delay, and whether the shutdown
-- comes during the sleep.
pub record Round : Type 0 where
  pub discovery : Discovery
  pub random : ℕ
  pub shutdown_in_sleep : Bool

-- The variables of `run`.
pub record Connector : Type 0 where
  pub quic_failures : ℕ
  pub attempt : ℕ

abbrev pub is_duplicate : Error → Bool
is_duplicate (edge (duplicate_connection _)) = true
is_duplicate _ = false

abbrev is_quic : Transport → Bool
is_quic quic = true
is_quic _ = false

-- `registered_at.elapsed() >= grace_period`, if the attempt registered.
abbrev was_healthy : Option ℕ → ℕ → ℕ → Bool
was_healthy none now grace_period = false
was_healthy (some registered_at) now grace_period = leb grace_period (now - registered_at)

-- The loop over the edges: it returns from `run`, or leaves `attempt` and `quic_broken`.
pub data EdgesOutcome : Type 0 where
  returned : Result Error (Unit {0}) → EdgesOutcome
  exhausted : ℕ → Bool → EdgesOutcome

-- The `match` on the result of an attempt: the loop returns, or goes on as a skipped or as a
-- failed edge.
unfoldable pub after_attempt : Result Error (Unit {0}) → EdgesOutcome → EdgesOutcome → EdgesOutcome
after_attempt (ok _) skipped rest = returned (ok tt)
after_attempt (err e) skipped rest =
    if is_duplicate e then skipped else if is_permanent e then returned (err e) else rest

unfoldable pub try_edges : EdgeOptions → Transport → List EdgeOutcome → ℕ → Bool → EdgesOutcome
unfolding after_attempt
try_edges options transport [] attempt quic_broken = exhausted attempt quic_broken
try_edges options transport (shut_down ∷ edges) attempt quic_broken = returned (ok tt)
try_edges options transport (served a now ∷ edges) attempt quic_broken =
    after_attempt a.result (try_edges options transport edges attempt quic_broken) (
      try_edges options transport edges
        (if was_healthy a.registered_at now options.grace_period then 0 else attempt)
        (quic_broken || (a.quic_timed_out && is_quic transport)))

-- `quic_failures` after a round in which no edge was left.
unfoldable pub count_failures : EdgeOptions → Transport → Bool → ℕ → ℕ
count_failures options transport quic_broken quic_failures =
    if is_quic transport
    then (if quic_broken
        then max (saturating_add_u8 quic_failures 1) options.maximum_quic_failures
        else saturating_add_u8 quic_failures 1)
    else quic_failures

-- The end of a round: `run` returns, or sleeps for a delay and goes on.
pub data RoundEnd : Type 0 where
  finished : Result Error (Unit {0}) → RoundEnd
  again : Connector → RoundEnd

-- The sleep after a failure; the delay is that of the new attempt.
abbrev sleep : Round → Connector → RoundEnd
sleep round c = if round.shutdown_in_sleep then finished (ok tt) else again c

abbrev pub transport_of : EdgeOptions → Connector → Transport
transport_of options c =
    select_transport options.transport c.quic_failures options.maximum_quic_failures

unfoldable pub after_edges : EdgeOptions → Round → Connector → EdgesOutcome → RoundEnd
after_edges options round c (returned r) = finished r
after_edges options round c (exhausted attempt quic_broken) = sleep round (record {
  quic_failures = count_failures options (transport_of options c) quic_broken c.quic_failures;
  attempt = saturating_add_u32 attempt 1;
})

unfoldable pub discover : EdgeOptions → Round → Connector → Discovery → RoundEnd
unfolding after_edges
discover options round c (failed e) =
    sleep round (record c { attempt = saturating_add_u32 c.attempt 1 })
discover options round c (found edges) =
    after_edges options round c (try_edges options (transport_of options c) edges c.attempt false)

unfoldable pub run_round : EdgeOptions → Round → Connector → RoundEnd
unfolding discover
run_round options round c = discover options round c round.discovery

-- A round as it is seen from outside: the transport that it uses, whether an edge is tried, and
-- its delay if it sleeps.
pub record Trace : Type 0 where
  pub transport : Transport
  pub attempted : Bool
  pub delay : Option ℕ

abbrev has_edges : Discovery → Bool
has_edges (failed e) = false
has_edges (found edges) = true

abbrev delay_of : EdgeOptions → Round → RoundEnd → Option ℕ
delay_of options round (finished r) = none
delay_of options round (again c) = some (retry_delay c.attempt options.backoff round.random)

abbrev pub trace_of : EdgeOptions → Round → Connector → Trace
trace_of options round c = record {
  transport = transport_of options c;
  attempted = has_edges round.discovery;
  delay = delay_of options round (run_round options round c);
}

-- `run` over the rounds that the world gives it: the result is `none` while it still runs.
pub record Run : Type 0 where
  pub result : Option (Result Error (Unit {0}))
  pub rounds : List Trace

abbrev pub start : Connector
start = record { quic_failures = 0; attempt = 0 }

unfoldable pub continue_run : Trace → RoundEnd → (Connector → Run) → Run
continue_run t (finished r) next = record { result = some r; rounds = t ∷ [] }
continue_run t (again c) next =
    let rest = next c in record { result = rest.result; rounds = t ∷ rest.rounds }

unfoldable pub run_from : EdgeOptions → List Round → Connector → Run
unfolding continue_run
run_from options [] c = record { result = none; rounds = [] }
run_from options (round ∷ rounds) c =
    continue_run (trace_of options round c) (run_round options round c) (run_from options rounds)

unfoldable pub run : EdgeOptions → List Round → Run
unfolding run_from
run options rounds = run_from options rounds start
