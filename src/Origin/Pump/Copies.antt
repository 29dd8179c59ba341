-- ===== src/Origin/Pump/Copies.antt =====
-- The pump against the copy of each direction alone.
use libcfd.Prelude.{
  [], ℕ, ◌+◌, subst, ◌≡◌, ◌≤◌, refl, sym, ◌∙◌, String, Bool, true, false, ◌&&◌, List, ◌∷◌, Result,
  if◌then◌else◌, length, arith, Bytes,
}
use libcfd.Origin.Pump.Advances.{
  Copied, ended, copy, progress, left, to_origin, to_edge, edge_left, origin_left, Advances,
  turn-Advances, done_at,
}
use libcfd.Origin.Pump.{
  Read, Side, edge_side, origin_side, Pump, Pumped, returned, pumping, turn, pump, start,
}

-- How often a branch completes.
unfoldable pub completions : Side → List Side → ℕ
completions s [] = 0
completions edge_side (edge_side ∷ sides) = 1 + completions edge_side sides
completions edge_side (origin_side ∷ sides) = completions edge_side sides
completions origin_side (edge_side ∷ sides) = completions origin_side sides
completions origin_side (origin_side ∷ sides) = 1 + completions origin_side sides

module _ {O E : Type 0} (write_origin : Bytes → O → Result String (Unit {0}) × O)
    (close_origin : O → O) (write_edge : Bytes → E → Result String (Unit {0}) × E)
    (close_edge : E → E) where
  abbrev forwarded : Pump O E → Copied O
  forwarded = to_origin write_origin close_origin write_edge close_edge

  abbrev answered : Pump O E → Copied E
  answered = to_edge write_origin close_origin write_edge close_edge

  abbrev edge_rest : Pump O E → ℕ
  edge_rest = edge_left write_origin close_origin write_edge close_edge

  abbrev origin_rest : Pump O E → ℕ
  origin_rest = origin_left write_origin close_origin write_edge close_edge

  abbrev pumps : List Side → Pump O E → Pumped O E
  pumps = pump write_origin close_origin write_edge close_edge

  abbrev turns : Side → Pump O E → Pump O E
  turns = turn write_origin close_origin write_edge close_edge

  -- What the pump leaves, if it returned: the copy of each direction.
  pub Copies : Copied O → Copied E → Pumped O E → Type 0
  Copies o e (pumping q) = (forwarded q ≡ o) × (answered q ≡ e)
  Copies o e (returned q) = (o ≡ ended q.origin_write) × (e ≡ ended q.edge_write)

  both : (a b : Bool) → (a && b) ≡ true → (a ≡ true) × (b ≡ true)
  both true b h = (refl, h)
  both false b h = absurd cc

  is_done :
      (p : Pump O E)
      → (p.edge_done && p.origin_done) ≡ true
      → Copies (forwarded p) (answered p) (returned p)
  unfolding Copies to_origin to_edge progress
  is_done p h = let (a, b) = both p.edge_done p.origin_done h in (rw a, rw b)

  turn-keeps :
      (s : Side) (p : Pump O E)
      → (forwarded (turns s p) ≡ forwarded p) × (answered (turns s p) ≡ answered p)
  unfolding Advances
  turn-keeps edge_side p =
      let (a, b, c, d) =
        turn-Advances write_origin close_origin write_edge close_edge edge_side p in
      (a, b)
  turn-keeps origin_side p =
      let (a, b, c, d) =
        turn-Advances write_origin close_origin write_edge close_edge origin_side p in
      (a, b)

  turned :
      (s : Side) (p : Pump O E) (r : Pumped O E)
      → Copies (forwarded (turns s p)) (answered (turns s p)) r
      → Copies (forwarded p) (answered p) r
  turned s p r c =
      let (a, b) = turn-keeps s p in
      subst (λ o. Copies o (answered p) r) a (subst (λ e. Copies (forwarded (turns s p)) e r) b c)

  pump-progress :
      (sides : List Side) (p : Pump O E) → Copies (forwarded p) (answered p) (pumps sides p)
  unfolding pump
  pump-progress [] p = chosen (p.edge_done && p.origin_done) refl
    where
      chosen :
          (d : Bool)
          → (p.edge_done && p.origin_done) ≡ d
          → Copies (forwarded p) (answered p) (if d then returned p else pumping p)
      chosen true h = is_done p h
      chosen false h = unfold Copies in (refl, refl)
  pump-progress (s ∷ sides) p =
      chosen (p.edge_done && p.origin_done) refl (turned s p _ (pump-progress sides (turns s p)))
    where
      chosen :
          (d : Bool)
          → (p.edge_done && p.origin_done) ≡ d
          → Copies (forwarded p) (answered p) (pumps sides (turns s p))
          → Copies (forwarded p) (answered p) (if d then returned p else pumps sides (turns s p))
      chosen true h rest = is_done p h
      chosen false h rest = rest

  abbrev forwards : List Read → O → Copied O
  forwards = copy write_origin close_origin

  abbrev answers : List Read → E → Copied E
  answers = copy write_edge close_edge

  -- In whatever order the branches of the select complete, a pump that has returned left each write
  -- half as the copy of its direction alone ends, and one that still waits can only go on to that.
  pub pump-Copies :
      (sides : List Side) (edge origin : List Read) (o : O) (e : E)
      → Copies (forwards edge o) (answers origin e) (pumps sides (start edge origin o e))
  pump-Copies sides edge origin o e =
      unfold to_origin to_edge progress in pump-progress sides (start edge origin o e)

  -- The copies that the pump still has to make, and the order of the branches that makes them.
  Reaches : List Side → Pump O E → O → E → Type 0
  Reaches sides p o e =
      (forwarded p ≡ ended o)
      × (answered p ≡ ended e)
      × (edge_rest p ≤ completions edge_side sides)
      × (origin_rest p ≤ completions origin_side sides)

  turn-Reaches :
      (s : Side) (sides : List Side) (p : Pump O E) (o : O) (e : E)
      → Reaches (s ∷ sides) p o e
      → Reaches sides (turns s p) o e
  unfolding Reaches completions Advances
  turn-Reaches edge_side sides p o e (a, b, l, m) =
      let (f, g, h, i) =
        turn-Advances write_origin close_origin write_edge close_edge edge_side p in
      (f ∙ a, g ∙ b, omega arith, omega arith)
  turn-Reaches origin_side sides p o e (a, b, l, m) =
      let (f, g, h, i) =
        turn-Advances write_origin close_origin write_edge close_edge origin_side p in
      (f ∙ a, g ∙ b, omega arith, omega arith)

  Returns : Pumped O E → O → E → Type 0
  Returns r o e = (q : Pump O E) × (r ≡ returned q) × (q.origin_write ≡ o) × (q.edge_write ≡ e)

  is_returned :
      (p : Pump O E) (sides : List Side) (o : O) (e : E)
      → (p.edge_done && p.origin_done) ≡ true
      → Reaches sides p o e
      → Returns (returned p) o e
  unfolding Reaches Returns Copies
  is_returned p sides o e h (a, b, l, m) =
      let (x, y) = is_done p h in (p, refl, cc (x, a), cc (y, b))

  all_done :
      (p : Pump O E) (o : O) (e : E) → Reaches [] p o e → (p.edge_done && p.origin_done) ≡ true
  unfolding Reaches completions to_origin to_edge
  all_done p o e (a, b, l, m) =
      let x = done_at write_origin close_origin p.edge_done p.edge_read p.origin_write o l a in
      let y = done_at write_edge close_edge p.origin_done p.origin_read p.edge_write e m b in
      rw (x, y)

  pump-Reaches :
      (sides : List Side) (p : Pump O E) (o : O) (e : E)
      → Reaches sides p o e
      → Returns (pumps sides p) o e
  unfolding pump
  pump-Reaches [] p o e r =
      subst (λ d. Returns (if d then returned p else pumping p) o e) (sym (all_done p o e r))
        (is_returned p [] o e (all_done p o e r) r)
  pump-Reaches (s ∷ sides) p o e r =
      chosen (p.edge_done && p.origin_done) refl
        (pump-Reaches sides (turns s p) o e (turn-Reaches s sides p o e r))
    where
      chosen :
          (d : Bool)
          → (p.edge_done && p.origin_done) ≡ d
          → Returns (pumps sides (turns s p)) o e
          → Returns (if d then returned p else pumps sides (turns s p)) o e
      chosen true h rest = is_returned p (s ∷ sides) o e h r
      chosen false h rest = rest

  -- Where each direction's copy comes to an end, the pump returns in every order of the branches in
  -- which each completes at least as often as its source answers, and its write halves are then
  -- those that the copies end with.
  pub pump-returns :
      (sides : List Side) (edge origin : List Read) (o o' : O) (e e' : E)
      → forwards edge o ≡ ended o'
      → answers origin e ≡ ended e'
      → length edge ≤ completions edge_side sides
      → length origin ≤ completions origin_side sides
      → (q : Pump O E) × (pumps sides (start edge origin o e) ≡ returned q)
        × (q.origin_write ≡ o')
        × (q.edge_write ≡ e')
  unfolding Returns Reaches to_origin to_edge progress left
  pump-returns sides edge origin o o' e e' a b l m =
      pump-Reaches sides (start edge origin o e) o' e' (a, b, l, m)
