-- ===== src/Edge/Connector/Fallback.antt =====
-- The transports that the rounds of `EdgeConnector::run` use.
use libcfd.Prelude.{
  [], ℕ, ◌≡◌, refl, sym, ap, ◌∙◌, Bool, true, false, List, ◌∷◌, ◌⊎◌, inl, inr, ok, leb,
  if◌then◌else◌, subst,
}
use libcfd.Edge.Connector.{
  EdgeOptions, Transport, quic, h2, auto, select_transport, Discovery, failed, found, Round,
  Connector, EdgesOutcome, returned, exhausted, RoundEnd, finished, again, after_edges, discover,
  run_round, Run, run_from, run, continue_run, start, Trace, transport_of, count_failures, trace_of,
}

abbrev is_h2 : Transport → Bool
is_h2 h2 = true
is_h2 _ = false

select_transport-cases :
    (t : Transport) (q m : ℕ) → (select_transport t q m ≡ quic) ⊎ (select_transport t q m ≡ h2)
unfolding select_transport
select_transport-cases quic q m = inl refl
select_transport-cases h2 q m = inr refl
select_transport-cases auto q m = chosen (leb m q)
  where
    chosen : (b : Bool) → ((if b then h2 else quic) ≡ quic) ⊎ ((if b then h2 else quic) ≡ h2)
    chosen true = inr refl
    chosen false = inl refl

-- A round without QUIC leaves the failure count as it was.
Keeps : ℕ → RoundEnd → Type 0
Keeps q (finished r) = Unit
Keeps q (again c) = c.quic_failures ≡ q

sleep-Keeps :
    (b : Bool) (q : ℕ) (c : Connector)
    → (c.quic_failures ≡ q)
    → Keeps q (if b then finished (ok tt) else again c)
unfolding Keeps
sleep-Keeps true q c h = tt
sleep-Keeps false q c h = h

count_failures-keeps :
    (options : EdgeOptions) (t : Transport) (b : Bool) (q : ℕ)
    → (t ≡ h2)
    → count_failures options t b q ≡ q
unfolding count_failures
count_failures-keeps options t b q h = rw h

after_edges-Keeps :
    (options : EdgeOptions) (round : Round) (c : Connector) (o : EdgesOutcome)
    → (transport_of options c ≡ h2)
    → Keeps c.quic_failures (after_edges options round c o)
unfolding after_edges Keeps
after_edges-Keeps options round c (returned r) h = tt
after_edges-Keeps options round c (exhausted a b) h =
    sleep-Keeps round.shutdown_in_sleep c.quic_failures _ (count_failures-keeps options _ b _ h)

discover-Keeps :
    (options : EdgeOptions) (round : Round) (c : Connector) (d : Discovery)
    → (transport_of options c ≡ h2)
    → Keeps c.quic_failures (discover options round c d)
unfolding discover
discover-Keeps options round c (failed e) h =
    sleep-Keeps round.shutdown_in_sleep c.quic_failures _ refl
discover-Keeps options round c (found edges) h = after_edges-Keeps options round c _ h

run_round-Keeps :
    (options : EdgeOptions) (round : Round) (c : Connector)
    → (transport_of options c ≡ h2)
    → Keeps c.quic_failures (run_round options round c)
unfolding run_round
run_round-Keeps options round c h = discover-Keeps options round c round.discovery h

-- No round is left at `Auto`, and once a round uses HTTP/2 (or `used` says so) all later ones do.
pub KeepsH2 : Bool → List Trace → Type 0
KeepsH2 used [] = Unit
KeepsH2 used (t ∷ ts) =
    ((t.transport ≡ quic) ⊎ (t.transport ≡ h2))
    × ((used ≡ true) → t.transport ≡ h2)
    × KeepsH2 (is_h2 t.transport) ts

is_h2-eq : (t : Transport) → (is_h2 t ≡ true) → t ≡ h2
is_h2-eq h2 h = refl
is_h2-eq quic h = cc
is_h2-eq auto h = cc

continue_run-KeepsH2 :
    (options : EdgeOptions) (used : Bool) (t : Trace) (c : Connector) (o : RoundEnd)
    (next : Connector → Run)
    → (t.transport ≡ transport_of options c)
    → ((used ≡ true) → transport_of options c ≡ h2)
    → ((transport_of options c ≡ h2) → Keeps c.quic_failures o)
    → ((u : Bool) (c' : Connector)
        → ((u ≡ true) → transport_of options c' ≡ h2)
        → KeepsH2 u (next c').rounds)
    → KeepsH2 used (continue_run t o next).rounds
unfolding continue_run KeepsH2 Keeps
continue_run-KeepsH2 options used t c (finished r) next e h k n = (
  subst (λ x. (x ≡ quic) ⊎ (x ≡ h2)) (sym e)
      (select_transport-cases options.transport c.quic_failures _),
  (λ u. e ∙ h u),
  tt,
)
continue_run-KeepsH2 options used t c (again c') next e h k n = (
  subst (λ x. (x ≡ quic) ⊎ (x ≡ h2)) (sym e)
      (select_transport-cases options.transport c.quic_failures _),
  (λ u. e ∙ h u),
  n _ c' (λ u.
      let x = sym e ∙ is_h2-eq t.transport u in
      ap (λ q. select_transport options.transport q options.maximum_quic_failures) (k x) ∙ x),
)

run_from-KeepsH2 :
    (options : EdgeOptions) (rounds : List Round) (used : Bool) (c : Connector)
    → ((used ≡ true) → transport_of options c ≡ h2)
    → KeepsH2 used (run_from options rounds c).rounds
unfolding run_from KeepsH2
run_from-KeepsH2 options [] used c h = tt
run_from-KeepsH2 options (round ∷ rounds) used c h =
    continue_run-KeepsH2 options used (trace_of options round c) c (run_round options round c)
      (run_from options rounds) refl h (run_round-Keeps options round c)
      (λ u c'. run_from-KeepsH2 options rounds u c')

-- Every round of a run uses QUIC or HTTP/2, never the unresolved `Auto`, and once a round uses
-- HTTP/2 all later ones do, whatever the transport chosen and whatever happens in the rounds.
pub run-KeepsH2 :
    (options : EdgeOptions) (rounds : List Round) → KeepsH2 false (run options rounds).rounds
unfolding run
run-KeepsH2 options rounds = run_from-KeepsH2 options rounds false start (λ u. cc)
