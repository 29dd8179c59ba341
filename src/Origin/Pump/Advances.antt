-- ===== src/Origin/Pump/Advances.antt =====
-- The copy of each direction of the pump, and what a turn of the pump does to it.
use libcfd.Prelude.{
  [], ℕ, ◌-◌, ap, ◌≡◌, ◌≤◌, refl, sym, ◌∙◌, String, Bool, true, false, List, ◌∷◌, Result, ok, err,
  if◌then◌else◌, length, arith, Bytes,
}
use libcfd.Origin.Pump.{
  Read, read_ok, read_error, Side, edge_side, origin_side, Pump, written_origin, written_edge,
  edge_turn, origin_turn, turn,
}

-- What copying one direction to its end leaves of the write half.
pub data Copied (W : Type 0) : Type 0 where
  ended waiting : W → Copied W

module _ {W : Type 0} (write : Bytes → W → Result String (Unit {0}) × W) (close : W → W) where
  unfoldable pub after_write : Result String (Unit {0}) × W → (W → Copied W) → Copied W
  after_write (ok u, w) rest = rest w
  after_write (err e, w) rest = ended w

  -- One direction alone: each read is written until the source ends, which closes the write half,
  -- or a read or a write fails, which does not.
  unfoldable pub copy : List Read → W → Copied W
  unfolding after_write
  copy [] w = waiting w
  copy (read_ok [] ∷ reads) w = ended (close w)
  copy (read_ok (b ∷ bytes) ∷ reads) w = after_write (write (b ∷ bytes) w) (copy reads)
  copy (read_error e ∷ reads) w = ended w

  -- The copy of a direction that may be done already.
  unfoldable pub progress : Bool → List Read → W → Copied W
  unfolding copy
  progress true reads w = ended w
  progress false reads w = copy reads w

-- The turns that a direction still needs at most.
unfoldable pub left : Bool → List Read → ℕ
left true reads = 0
left false reads = length reads

left_at : (d : Bool) (reads : List Read) → d ≡ false → left d reads ≤ length reads
unfolding left
left_at true reads e = absurd cc
left_at false reads e = omega arith

done_left : (d : Bool) (reads : List Read) → d ≡ true → left d reads ≡ 0
unfolding left
done_left true reads e = refl
done_left false reads e = absurd cc

pub done_at :
    {W : Type 0} (write : Bytes → W → Result String (Unit {0}) × W) (close : W → W) (d : Bool)
    (reads : List Read) (w w' : W)
    → left d reads ≤ 0
    → progress write close d reads w ≡ ended w'
    → d ≡ true
unfolding left progress copy
done_at write close true reads w w' l e = refl
done_at write close false [] w w' l e = absurd cc
done_at write close false (r ∷ reads) w w' l e = absurd (omega arith)

module _ {O E : Type 0} (write_origin : Bytes → O → Result String (Unit {0}) × O)
    (close_origin : O → O) (write_edge : Bytes → E → Result String (Unit {0}) × E)
    (close_edge : E → E) where
  unfoldable pub to_origin : Pump O E → Copied O
  to_origin p = progress write_origin close_origin p.edge_done p.edge_read p.origin_write

  unfoldable pub to_edge : Pump O E → Copied E
  to_edge p = progress write_edge close_edge p.origin_done p.origin_read p.edge_write

  abbrev pub edge_left : Pump O E → ℕ
  edge_left p = left p.edge_done p.edge_read

  abbrev pub origin_left : Pump O E → ℕ
  origin_left p = left p.origin_done p.origin_read

  -- Neither direction's copy changes; the one that had the turn comes nearer to its end.
  unfoldable pub Advances : Side → Pump O E → Pump O E → Type 0
  Advances edge_side p q =
      (to_origin q ≡ to_origin p)
      × (to_edge q ≡ to_edge p)
      × (edge_left q ≤ edge_left p - 1)
      × (origin_left q ≡ origin_left p)
  Advances origin_side p q =
      (to_origin q ≡ to_origin p)
      × (to_edge q ≡ to_edge p)
      × (edge_left q ≡ edge_left p)
      × (origin_left q ≤ origin_left p - 1)

  written_origin-Advances :
      (r : Result String (Unit {0}) × O) (reads : List Read) (p : Pump O E)
      → p.edge_done ≡ false
      → let q =
          written_origin write_origin close_origin write_edge close_edge r
            (record p { edge_read = reads }) in
        (to_origin q
          ≡ after_write write_origin close_origin r (copy write_origin close_origin reads))
        × (to_edge q ≡ to_edge p)
        × (edge_left q ≤ length reads)
        × (origin_left q ≡ origin_left p)
  unfolding written_origin to_origin to_edge after_write progress left
  written_origin-Advances (ok u, w) reads p e = (
    ap (λ d. progress write_origin close_origin d reads w) e,
    refl,
    left_at p.edge_done reads e,
    refl,
  )
  written_origin-Advances (err x, w) reads p e = (refl, refl, omega arith, refl)

  written_edge-Advances :
      (r : Result String (Unit {0}) × E) (reads : List Read) (p : Pump O E)
      → p.origin_done ≡ false
      → let q =
          written_edge write_origin close_origin write_edge close_edge r
            (record p { origin_read = reads }) in
        (to_origin q ≡ to_origin p)
        × (to_edge q ≡ after_write write_edge close_edge r (copy write_edge close_edge reads))
        × (edge_left q ≡ edge_left p)
        × (origin_left q ≤ length reads)
  unfolding written_edge to_origin to_edge after_write progress left
  written_edge-Advances (ok u, w) reads p e = (
    refl,
    ap (λ d. progress write_edge close_edge d reads w) e,
    refl,
    left_at p.origin_done reads e,
  )
  written_edge-Advances (err x, w) reads p e = (refl, refl, refl, omega arith)

  abbrev turns : Side → Pump O E → Pump O E
  turns = turn write_origin close_origin write_edge close_edge

  -- Where a direction is not done and has these reads left.
  to_origin-at :
      (p : Pump O E) {reads : List Read}
      → p.edge_read ≡ reads
      → p.edge_done ≡ false
      → (to_origin p ≡ copy write_origin close_origin reads p.origin_write)
        × (edge_left p ≡ length reads)
  unfolding to_origin progress left
  to_origin-at p r e = (rw (e, r), rw (e, r))

  to_edge-at :
      (p : Pump O E) {reads : List Read}
      → p.origin_read ≡ reads
      → p.origin_done ≡ false
      → (to_edge p ≡ copy write_edge close_edge reads p.edge_write) × (origin_left p ≡ length reads)
  unfolding to_edge progress left
  to_edge-at p r e = (rw (e, r), rw (e, r))

  edge_turn-Advances :
      (reads : List Read) (p : Pump O E)
      → p.edge_read ≡ reads
      → p.edge_done ≡ false
      → Advances edge_side p (edge_turn write_origin close_origin write_edge close_edge reads p)
  unfolding edge_turn Advances copy to_edge
  edge_turn-Advances [] p r e = let (c, l) = to_origin-at p r e in (refl, refl, omega arith, refl)
  edge_turn-Advances (read_ok [] ∷ reads) p r e =
      let (c, l) = to_origin-at p r e in
      (unfold to_origin progress in sym c, refl, unfold left in omega arith, refl)
  edge_turn-Advances (read_ok (b ∷ bytes) ∷ reads) p r e =
      let (c, l) = to_origin-at p r e in
      let (h, i, m, n) =
        written_origin-Advances (write_origin (b ∷ bytes) p.origin_write) reads p e in
      (h ∙ sym c, i, omega arith, n)
  edge_turn-Advances (read_error x ∷ reads) p r e =
      let (c, l) = to_origin-at p r e in
      (unfold to_origin progress in sym c, refl, unfold left in omega arith, refl)

  origin_turn-Advances :
      (reads : List Read) (p : Pump O E)
      → p.origin_read ≡ reads
      → p.origin_done ≡ false
      → Advances origin_side p (origin_turn write_origin close_origin write_edge close_edge reads p)
  unfolding origin_turn Advances copy to_origin
  origin_turn-Advances [] p r e = let (c, l) = to_edge-at p r e in (refl, refl, refl, omega arith)
  origin_turn-Advances (read_ok [] ∷ reads) p r e =
      let (c, l) = to_edge-at p r e in
      (refl, unfold to_edge progress in sym c, refl, unfold left in omega arith)
  origin_turn-Advances (read_ok (b ∷ bytes) ∷ reads) p r e =
      let (c, l) = to_edge-at p r e in
      let (h, i, m, n) = written_edge-Advances (write_edge (b ∷ bytes) p.edge_write) reads p e in
      (h, i ∙ sym c, m, omega arith)
  origin_turn-Advances (read_error x ∷ reads) p r e =
      let (c, l) = to_edge-at p r e in
      (refl, unfold to_edge progress in sym c, refl, unfold left in omega arith)

  pub turn-Advances : (s : Side) (p : Pump O E) → Advances s p (turns s p)
  unfolding turn
  turn-Advances edge_side p = chosen p.edge_done refl
    where
      chosen :
          (d : Bool)
          → p.edge_done ≡ d
          → Advances edge_side p (
              if d
              then p
              else edge_turn write_origin close_origin write_edge close_edge p.edge_read p)
      chosen true e =
          let l = done_left p.edge_done p.edge_read e in
          unfold Advances in (refl, refl, omega arith, refl)
      chosen false e = edge_turn-Advances p.edge_read p refl e
  turn-Advances origin_side p = chosen p.origin_done refl
    where
      chosen :
          (d : Bool)
          → p.origin_done ≡ d
          → Advances origin_side p (
              if d
              then p
              else origin_turn write_origin close_origin write_edge close_edge p.origin_read p)
      chosen true e =
          let l = done_left p.origin_done p.origin_read e in
          unfold Advances in (refl, refl, refl, omega arith)
      chosen false e = origin_turn-Advances p.origin_read p refl e
