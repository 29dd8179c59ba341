-- ===== src/Edge/Drain.antt =====
-- src/edge/serve.rs: the drain of an unread request body after the handler returned.
use libcfd.Prelude.{
  [], ℕ, zero, suc, ◌+◌, ◌≤◌, ◌<◌, Bool, true, false, List, ◌∷◌, ltb, leb, if◌then◌else◌, arith,
}
use libcfd.Prelude.{saturating_add_u64}

-- A read within `DRAIN_TIMEOUT`; the end of the stream is a read of no bytes.
pub data DrainRead : Type 0 where
  read_bytes : ℕ → DrainRead
  read_failed timed_out : DrainRead

abbrev drain_limit : ℕ
drain_limit = 262_144

-- The variables of the loop.
pub record Drain : Type 0 where
  pub total : ℕ
  pub read : ℕ
  pub gave_up : Bool

abbrev pub start : Drain
start = record { total = 0; read = 0; gave_up = false }

-- A turn breaks or goes on.
pub data DrainTurn : Type 0 where
  breaks goes_on : Drain → DrainTurn

abbrev give_up : Drain → DrainTurn
give_up d = breaks (record d { gave_up = true })

unfoldable count_read : Drain → DrainTurn
count_read d =
    let counted = record d { read = d.read + 1 } in
    if ltb 4_096 (d.read + 1) then give_up counted else goes_on counted

unfoldable pub turn : DrainRead → Drain → DrainTurn
unfolding count_read
turn read_failed d = give_up d
turn timed_out d = give_up d
turn (read_bytes zero) d = breaks d
turn (read_bytes (suc n)) d =
    let added = record d { total = saturating_add_u64 d.total (suc n) } in
    if leb drain_limit added.total then give_up added else count_read added

unfoldable pub after_turn : DrainTurn → (Drain → DrainTurn) → DrainTurn
after_turn (breaks d) loop = breaks d
after_turn (goes_on d) loop = loop d

-- The loop over the reads; a list that ends leaves it waiting.
unfoldable pub drain_unread : List DrainRead → Drain → DrainTurn
unfolding after_turn
drain_unread [] d = goes_on d
drain_unread (r ∷ reads) d = after_turn (turn r d) (drain_unread reads)

-- Each read fills at most the buffer.
unfoldable pub FitBuffer : List DrainRead → Type 0
FitBuffer [] = Unit
FitBuffer (read_bytes n ∷ reads) = (n ≤ 8_192) × FitBuffer reads
FitBuffer (_ ∷ reads) = FitBuffer reads

-- While the loop goes on it is below both limits, and it breaks at most one read past them.
IsDraining : Drain → Type 0
IsDraining d = (d.total < drain_limit) × (d.read ≤ 4_096)

pub IsBounded : DrainTurn → Type 0
unfolding IsDraining
IsBounded (goes_on d) = IsDraining d
IsBounded (breaks d) = (d.total < drain_limit + 8_192) × (d.read ≤ 4_097)

turn-IsBounded :
    (r : DrainRead) (reads : List DrainRead) (d : Drain)
    → FitBuffer (r ∷ reads)
    → IsDraining d
    → IsBounded (turn r d)
unfolding turn IsBounded IsDraining FitBuffer count_read
turn-IsBounded read_failed reads d f (t, n) = (omega arith, omega arith)
turn-IsBounded timed_out reads d f (t, n) = (omega arith, omega arith)
turn-IsBounded (read_bytes zero) reads d f (t, n) = (omega arith, omega arith)
turn-IsBounded (read_bytes (suc k)) reads d (f, fs) (t, n) = ground arith

FitBuffer-rest : (r : DrainRead) (reads : List DrainRead) → FitBuffer (r ∷ reads) → FitBuffer reads
unfolding FitBuffer
FitBuffer-rest (read_bytes n) reads (f, fs) = fs
FitBuffer-rest read_failed reads fs = fs
FitBuffer-rest timed_out reads fs = fs

after_turn-IsBounded :
    (t : DrainTurn) (loop : Drain → DrainTurn)
    → IsBounded t
    → ((d : Drain) → IsDraining d → IsBounded (loop d))
    → IsBounded (after_turn t loop)
unfolding after_turn IsBounded
after_turn-IsBounded (breaks d) loop b h = b
after_turn-IsBounded (goes_on d) loop b h = h d b

drain-IsBounded :
    (reads : List DrainRead) (d : Drain)
    → FitBuffer reads
    → IsDraining d
    → IsBounded (drain_unread reads d)
unfolding drain_unread IsBounded
drain-IsBounded [] d f i = i
drain-IsBounded (r ∷ reads) d f i =
    after_turn-IsBounded (turn r d) (drain_unread reads) (turn-IsBounded r reads d f i)
      (λ e. drain-IsBounded reads e (FitBuffer-rest r reads f))

-- Where each read fits the buffer, the drain of a request body is bounded: while it goes on it has
-- read less than 256 KiB in at most 4,096 counted reads, and when it breaks it is at most one
-- buffer and one read past that.
pub drain_unread-IsBounded :
    (reads : List DrainRead) → FitBuffer reads → IsBounded (drain_unread reads start)
unfolding IsDraining
drain_unread-IsBounded reads f = drain-IsBounded reads start f (omega arith, omega arith)
