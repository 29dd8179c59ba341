-- ===== src/Witnesses/Origin.antt =====
-- The theorems on what carries the bytes of the requests, at concrete inputs.
use libcfd.Prelude.{
  [], ◌≡◌, refl, String, Bool, true, false, List, ◌∷◌, ◌++◌, Result, ok, Bytes, arith,
}
use libcfd.Origin.Pump.{
  Read, read_ok, read_error, Side, edge_side, origin_side, Pump, returned, pump, start,
}
use libcfd.Origin.Pump.Advances.{copy, after_write}
use libcfd.Origin.Pump.Copies.{Copies, pump-Copies, completions, pump-returns}

-- A write half keeps what it was given and whether it is closed.
abbrev Half : Type 0
Half = Bytes × Bool

write_all : Bytes → Half → Result String (Unit {0}) × Half
write_all bytes (written, closed) = (ok tt, (written ++ bytes, closed))

close : Half → Half
close (written, closed) = (written, true)

-- The edge ends its side and the origin's reads fail.
abbrev from_edge : List Read
from_edge = read_ok (1 ∷ 2 ∷ []) ∷ read_ok [] ∷ []

abbrev from_origin : List Read
from_origin = read_ok (7 ∷ []) ∷ read_error "reset" ∷ []

abbrev order : List Side
order = origin_side ∷ edge_side ∷ edge_side ∷ edge_side ∷ origin_side ∷ []

pump-Copies_example :
    Copies write_all close write_all close
      (copy write_all close from_edge ([], false))
      (copy write_all close from_origin ([], false))
      (pump write_all close write_all close order
        (start from_edge from_origin ([], false) ([], false)))
pump-Copies_example =
    pump-Copies write_all close write_all close order from_edge from_origin ([], false) ([], false)

pump-returns_example :
    (q : Pump Half Half) × (pump write_all close write_all close order
        (start from_edge from_origin ([], false) ([], false))
      ≡ returned q)
    × (q.origin_write ≡ (1 ∷ 2 ∷ [], true))
    × (q.edge_write ≡ (7 ∷ [], false))
unfolding copy after_write completions write_all close
pump-returns_example =
    pump-returns write_all close write_all close order from_edge from_origin ([], false)
      (1 ∷ 2 ∷ [], true) ([], false) (7 ∷ [], false) refl refl (omega arith) (omega arith)
