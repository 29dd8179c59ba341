-- ===== src/Edge/Quic/Quinn.antt =====
-- src/edge/quic/quinn.rs: the connection over quinn. The halves of a stream are of the types `S` and
-- `R`; their polls, ends and resets are quinn's.
use libcfd.Prelude.{
  [], ℕ, ◌≡◌, refl, String, Option, none, some, Result, ok, err, str_append, Bytes,
}
use libcfd.Edge.Error.{Error, edge, quic}

-- `quinn::ConnectionError`, as far as it is told apart.
pub data ConnectionError : Type 0 where
  locally_closed application_closed connection_closed reset timed_out : ConnectionError
  other : String → ConnectionError

unfoldable accept_outcome : {A : Type 0} → Result ConnectionError A → Result Error (Option A)
accept_outcome (ok stream) = ok (some stream)
accept_outcome (err locally_closed) = ok none
accept_outcome (err application_closed) = ok none
accept_outcome (err connection_closed) = ok none
accept_outcome (err reset) = ok none
accept_outcome (err timed_out) = ok none
accept_outcome (err (other e)) = err (edge (quic (str_append "accept failed: " e)))

pub data Polled (A : Type 0) : Type 0 where
  ready : Result String A → Polled A
  pending : Polled A

-- What the clones of a stream share under its lock.
pub record StreamParts (S R : Type 0) : Type 0 where
  pub send : Option S
  pub recv : Option R

abbrev pub new : {S R : Type 0} → Option S → Option R → StreamParts S R
new send recv = record { send = send; recv = recv }

module _ {S R : Type 0} (send_id : S → ℕ) (recv_id : R → ℕ) where
  abbrev recv_or_default : Option R → ℕ
  recv_or_default none = 0
  recv_or_default (some r) = recv_id r

  abbrev send_or : Option S → ℕ → ℕ
  send_or none default = default
  send_or (some s) default = send_id s

  unfoldable pub id : StreamParts S R → ℕ
  id parts = send_or parts.send (recv_or_default parts.recv)

-- `as_mut` with a call on what is there.
unfoldable on_half : {A : Type 0} → (A → A) → Option A → Option A
on_half call none = none
on_half call (some half) = some (call half)

unfoldable pub finish : {S R : Type 0} → (S → S) → StreamParts S R → StreamParts S R
unfolding on_half
finish finish_send parts = record parts { send = on_half finish_send parts.send }

unfoldable pub cancel_write : {S R : Type 0} → (S → S) → StreamParts S R → StreamParts S R
unfolding on_half
cancel_write reset_send parts = record parts { send = on_half reset_send parts.send }

unfoldable pub stop_read : {S R : Type 0} → (R → R) → StreamParts S R → StreamParts S R
unfolding on_half
stop_read stop_recv parts = record parts { recv = on_half stop_recv parts.recv }

-- A poll takes the half out under the lock, polls it with the lock free, and puts it back under the
-- lock. `between` is what the other clones do meanwhile.
module _ {S R : Type 0} where
  unfoldable pub poll_read :
      (R → Polled Bytes × R)
      → (StreamParts S R → StreamParts S R)
      → StreamParts S R
      → Polled Bytes × StreamParts S R
  poll_read poll between parts = elim parts.recv [
    | none ↦ (ready (ok []), between parts)
    | some recv ↦
        let (result, recv') = poll recv in
        (result, record (between (record parts { recv = none })) { recv = some recv' })
  ]

  unfoldable pub poll_write :
      (S → Polled ℕ × S)
      → (StreamParts S R → StreamParts S R)
      → StreamParts S R
      → Polled ℕ × StreamParts S R
  poll_write poll between parts = elim parts.send [
    | none ↦ (ready (err "write side is closed"), between parts)
    | some send ↦
        let (result, send') = poll send in
        (result, record (between (record parts { send = none })) { send = some send' })
  ]

  unfoldable poll_flush :
      (S → Polled (Unit {0}) × S)
      → (StreamParts S R → StreamParts S R)
      → StreamParts S R
      → Polled (Unit {0}) × StreamParts S R
  poll_flush poll between parts = elim parts.send [
    | none ↦ (ready (ok tt), between parts)
    | some send ↦
        let (result, send') = poll send in
        (result, record (between (record parts { send = none })) { send = some send' })
  ]

  unfoldable pub poll_close : (S → S) → StreamParts S R → Polled (Unit {0}) × StreamParts S R
  unfolding finish
  poll_close finish_send parts = (ready (ok tt), finish finish_send parts)

  -- A clone that reads while another's poll is under way is told that the stream has ended, whatever
  -- the stream still has to deliver, and the half is there again after the first poll.
  poll_read-overlap :
      (first second : R → Polled Bytes × R) (parts : StreamParts S R) (recv : R)
      → parts.recv ≡ some recv
      → let during = record parts { recv = none } in
        ((poll_read second (λ p. p) during).0 ≡ ready (ok []))
        × ((poll_read first (λ p. (poll_read second (λ q. q) p).1) parts).0 ≡ (first recv).0)
        × ((poll_read first (λ p. (poll_read second (λ q. q) p).1) parts).1.recv
            ≡ some (first recv).1)
  unfolding poll_read
  poll_read-overlap first second parts recv h = (refl, rw h refl, rw h refl)
