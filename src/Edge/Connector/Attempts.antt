-- ===== src/Edge/Connector/Attempts.antt =====
-- How many rounds of `EdgeConnector::run` try QUIC.
use libcfd.Prelude.{
  [], ℕ, ◌+◌, ◌≡◌, ◌≤◌, ◌<◌, refl, Bool, true, false, ◌&&◌, List, ◌∷◌, ok, if◌then◌else◌, min,
  arith, subst,
}
use libcfd.Edge.Connector.{
  EdgeOptions, Transport, quic, h2, auto, select_transport, Discovery, failed, found, Round,
  Connector, EdgesOutcome, returned, exhausted, RoundEnd, finished, again, after_edges, discover,
  run_round, Run, run_from, run, continue_run, start, Trace, transport_of, is_quic, count_failures,
  trace_of, has_edges,
}

-- A QUIC round that tries an edge counts for one.
abbrev counted : Transport → Bool → ℕ
counted t attempted = if is_quic t && attempted then 1 else 0

pub quic_attempts : List Trace → ℕ
quic_attempts [] = 0
quic_attempts (t ∷ ts) = counted t.transport t.attempted + quic_attempts ts

-- A round that tries QUIC and goes on raises the failure count, up to the limit.
Grows : ℕ → ℕ → ℕ → RoundEnd → Type 0
Grows maximum q tried (finished r) = Unit
Grows maximum q tried (again c) =
    (min q maximum + tried ≤ min c.quic_failures maximum) × (c.quic_failures ≤ 255)

select_transport-quic : (q m : ℕ) → is_quic (select_transport auto q m) ≡ true → q < m
unfolding select_transport
select_transport-quic q m h = ground arith

count_failures-grows :
    (options : EdgeOptions) (t : Transport) (b : Bool) (q : ℕ)
    → options.maximum_quic_failures ≤ 255
    → q ≤ 255
    → (is_quic t ≡ true → q < options.maximum_quic_failures)
    → (min q options.maximum_quic_failures + counted t true
        ≤ min (count_failures options t b q) options.maximum_quic_failures)
      × (count_failures options t b q ≤ 255)
unfolding count_failures
count_failures-grows options quic true q m h k = let k' = k refl in (grind arith, grind arith)
count_failures-grows options quic false q m h k = let k' = k refl in (grind arith, grind arith)
count_failures-grows options h2 b q m h k = (grind arith, grind arith)
count_failures-grows options auto b q m h k = (grind arith, grind arith)

module _ (options : EdgeOptions) (small : options.maximum_quic_failures ≤ 255)
    (chosen : options.transport ≡ auto) where
  sleep-Grows :
      (b : Bool) (q tried : ℕ) (c : Connector)
      → (min q options.maximum_quic_failures + tried
          ≤ min c.quic_failures options.maximum_quic_failures)
        × (c.quic_failures ≤ 255)
      → Grows options.maximum_quic_failures q tried (if b then finished (ok tt) else again c)
  unfolding Grows
  sleep-Grows true q tried c h = tt
  sleep-Grows false q tried c h = h

  below :
      (c : Connector)
      → is_quic (transport_of options c) ≡ true
      → c.quic_failures < options.maximum_quic_failures
  below c h = select_transport-quic c.quic_failures options.maximum_quic_failures (
      subst (λ t. is_quic (select_transport t c.quic_failures options.maximum_quic_failures) ≡ true)
        chosen h)

  after_edges-Grows :
      (round : Round) (c : Connector) (o : EdgesOutcome)
      → c.quic_failures ≤ 255
      → Grows options.maximum_quic_failures c.quic_failures
          (counted (transport_of options c) true)
          (after_edges options round c o)
  unfolding after_edges Grows
  after_edges-Grows round c (returned r) h = tt
  after_edges-Grows round c (exhausted a b) h =
      sleep-Grows round.shutdown_in_sleep c.quic_failures _ _
        (count_failures-grows options (transport_of options c) b c.quic_failures small h (below c))

  discover-Grows :
      (round : Round) (c : Connector) (d : Discovery)
      → c.quic_failures ≤ 255
      → Grows options.maximum_quic_failures c.quic_failures
          (counted (transport_of options c) (has_edges d))
          (discover options round c d)
  unfolding discover
  discover-Grows round c (failed e) h =
      sleep-Grows round.shutdown_in_sleep c.quic_failures _ _
        (not_tried (is_quic (transport_of options c)), h)
    where
      not_tried :
          (b : Bool)
          → min c.quic_failures options.maximum_quic_failures + (if b && false then 1 else 0)
            ≤ min c.quic_failures options.maximum_quic_failures
      not_tried true = omega arith
      not_tried false = omega arith
  discover-Grows round c (found edges) h = after_edges-Grows round c _ h

  counted-below :
      (c : Connector) (b : Bool)
      → counted (transport_of options c) b + min c.quic_failures options.maximum_quic_failures
        ≤ options.maximum_quic_failures
  counted-below c b = tried (is_quic (transport_of options c)) b (below c)
    where
      tried :
          (x y : Bool)
          → (x ≡ true → c.quic_failures < options.maximum_quic_failures)
          → (if x && y then 1 else 0) + min c.quic_failures options.maximum_quic_failures
            ≤ options.maximum_quic_failures
      tried true true h = let k = h refl in omega arith
      tried true false h = omega arith
      tried false y h = omega arith

  continue_run-attempts :
      (t : Trace) (c : Connector) (o : RoundEnd) (next : Connector → Run)
      → counted t.transport t.attempted + min c.quic_failures options.maximum_quic_failures
        ≤ options.maximum_quic_failures
      → Grows options.maximum_quic_failures c.quic_failures (counted t.transport t.attempted) o
      → ((c' : Connector)
          → c'.quic_failures ≤ 255
          → quic_attempts (next c').rounds + min c'.quic_failures options.maximum_quic_failures
            ≤ options.maximum_quic_failures)
      → quic_attempts (continue_run t o next).rounds
          + min c.quic_failures options.maximum_quic_failures
        ≤ options.maximum_quic_failures
  unfolding continue_run quic_attempts Grows
  continue_run-attempts t c (finished r) next h g n = omega arith
  continue_run-attempts t c (again c') next h (g, s) n = let k = n c' s in omega arith

  run_from-attempts :
      (rounds : List Round) (c : Connector)
      → c.quic_failures ≤ 255
      → quic_attempts (run_from options rounds c).rounds
          + min c.quic_failures options.maximum_quic_failures
        ≤ options.maximum_quic_failures
  unfolding run_from quic_attempts run_round
  run_from-attempts [] c h = omega arith
  run_from-attempts (round ∷ rounds) c h =
      continue_run-attempts (trace_of options round c) c (run_round options round c)
        (run_from options rounds) (counted-below c _) (discover-Grows round c round.discovery h)
        (run_from-attempts rounds)

  -- With the transport `Auto` and a limit that fits a `u8`, a run tries edges over QUIC in at most
  -- `maximum_quic_failures` rounds, whatever happens in them.
  pub run-quic_attempts :
      (rounds : List Round)
      → quic_attempts (run options rounds).rounds ≤ options.maximum_quic_failures
  unfolding run
  run-quic_attempts rounds = let h = run_from-attempts rounds start (omega arith) in omega arith
