-- ===== src/Origin/Pump.antt =====
-- src/origin/pump.rs: the pump between an origin's stream and the edge's.
pub mod Advances
pub mod Copies
use libcfd.Prelude.{
  [], String, Bool, true, false, ◌&&◌, List, ◌∷◌, Result, ok, err, if◌then◌else◌, Bytes, ◌++◌,
}

-- What a read into the buffer answers; no bytes are the end of the stream.
pub data Read : Type 0 where
  read_ok : Bytes → Read
  read_error : String → Read

-- The branch of `select!` that completes.
pub data Side : Type 0 where
  edge_side origin_side : Side

-- The variables of the loop, with the reads that each source has still to answer. The write halves
-- are of the types `O` and `E`.
pub record Pump (O E : Type 0) : Type 0 where
  pub edge_read : List Read
  pub origin_read : List Read
  pub origin_write : O
  pub edge_write : E
  pub edge_done : Bool
  pub origin_done : Bool

-- The loop broke, or it waits for a branch.
pub data Pumped (O E : Type 0) : Type 0 where
  returned pumping : Pump O E → Pumped O E

-- A write half is used by `write_all` and `close`, of which the error of `close` is ignored.
module _ {O E : Type 0} (write_origin : Bytes → O → Result String (Unit {0}) × O)
    (close_origin : O → O) (write_edge : Bytes → E → Result String (Unit {0}) × E)
    (close_edge : E → E) where
  unfoldable pub written_origin : Result String (Unit {0}) × O → Pump O E → Pump O E
  written_origin (ok u, w) p = record p { origin_write = w }
  written_origin (err e, w) p = record p { origin_write = w; edge_done = true }

  unfoldable pub written_edge : Result String (Unit {0}) × E → Pump O E → Pump O E
  written_edge (ok u, w) p = record p { edge_write = w }
  written_edge (err e, w) p = record p { edge_write = w; origin_done = true }

  unfoldable pub edge_turn : List Read → Pump O E → Pump O E
  unfolding written_origin
  edge_turn [] p = p
  edge_turn (read_ok [] ∷ reads) p = record p {
    edge_read = reads;
    edge_done = true;
    origin_write = close_origin p.origin_write;
  }
  edge_turn (read_ok (b ∷ bytes) ∷ reads) p =
      written_origin (write_origin (b ∷ bytes) p.origin_write) (record p { edge_read = reads })
  edge_turn (read_error e ∷ reads) p = record p { edge_read = reads; edge_done = true }

  unfoldable pub origin_turn : List Read → Pump O E → Pump O E
  unfolding written_edge
  origin_turn [] p = p
  origin_turn (read_ok [] ∷ reads) p = record p {
    origin_read = reads;
    origin_done = true;
    edge_write = close_edge p.edge_write;
  }
  origin_turn (read_ok (b ∷ bytes) ∷ reads) p =
      written_edge (write_edge (b ∷ bytes) p.edge_write) (record p { origin_read = reads })
  origin_turn (read_error e ∷ reads) p = record p { origin_read = reads; origin_done = true }

  -- A branch whose source is done is disabled; one whose source has no answer yet stays pending.
  unfoldable pub turn : Side → Pump O E → Pump O E
  unfolding edge_turn origin_turn
  turn edge_side p = if p.edge_done then p else edge_turn p.edge_read p
  turn origin_side p = if p.origin_done then p else origin_turn p.origin_read p

  -- The loop over the branches that complete; when they run out it waits.
  unfoldable pub pump : List Side → Pump O E → Pumped O E
  unfolding turn
  pump [] p = if p.edge_done && p.origin_done then returned p else pumping p
  pump (s ∷ sides) p = if p.edge_done && p.origin_done then returned p else pump sides (turn s p)

-- The variables before the loop.
abbrev pub start : {O E : Type 0} → List Read → List Read → O → E → Pump O E
start edge origin o e = record {
  edge_read = edge;
  origin_read = origin;
  origin_write = o;
  edge_write = e;
  edge_done = false;
  origin_done = false;
}

-- `sha1` and `encode` are the digest and the base64 alphabet of the crates.
unfoldable pub websocket_accept :
    (Bytes → Bytes) → (Bytes → String) → (String → Bytes) → String → String
websocket_accept sha1 encode as_bytes challenge_key =
    encode (sha1 (as_bytes challenge_key ++ as_bytes "258EAFA5-E914-47DA-95CA-C5AB0DC85B11"))
