-- ===== src/Edge/H2/Stream/Frames.antt =====
-- The data frames that the writer of a response body sends.
use libcfd.Prelude.{
  [], ℕ, ◌≡◌, refl, sym, String, Bool, true, false, List, ◌∷◌, ◌++◌, Result, ok, err, ◌==◌,
  if◌then◌else◌, length, Bytes, subst, ap, ◌∙◌,
}
use libcfd.Edge.H2.Stream.{
  Polled, ready, failed, SendStreamWriter, after_send, send_some, CapacityPoll, granted,
  capacity_error, capacity_reset, capacity_pending, after_capacity, poll_write, poll_close,
  after_end,
}

-- A caller's uses of the writer: writes with what the capacity poll answers, and closes with the outcome
-- of the send of the end frame, if it comes to one.
pub data WriterUse : Type 0 where
  writes : Bytes → CapacityPoll → WriterUse
  closes : Result String (Unit {0}) → WriterUse

-- No frame ends the stream.
unfoldable pub IsOpen : List (Bytes × Bool) → Type 0
IsOpen [] = Unit
IsOpen ((bytes, ends) ∷ frames) = (ends ≡ false) × IsOpen frames

-- Only the last frame ends the stream, and it does just where `ended`.
unfoldable pub EndsOnce : Bool → List (Bytes × Bool) → Type 0
unfolding IsOpen
EndsOnce false sent = IsOpen sent
EndsOnce true sent =
    (frames : List (Bytes × Bool)) × IsOpen frames × (sent ≡ frames ++ ([], true) ∷ [])

-- Whether the writer is closed.
pub has_close : List WriterUse → Bool
has_close [] = false
has_close (writes buffer p ∷ us) = has_close us
has_close (closes outcome ∷ us) = true

-- Whether the send at the first close is accepted.
pub ends : List WriterUse → Bool
ends [] = false
ends (writes buffer p ∷ us) = ends us
ends (closes (ok _) ∷ us) = true
ends (closes (err e) ∷ us) = false

append-IsOpen :
    (sent : List (Bytes × Bool)) (bytes : Bytes)
    → IsOpen sent
    → IsOpen (sent ++ (bytes, false) ∷ [])
unfolding IsOpen
append-IsOpen [] bytes i = (refl, tt)
append-IsOpen ((b, e) ∷ sent) bytes (f, i) = (f, append-IsOpen sent bytes i)

-- A writer that is not closed, with no frame that ends the stream.
unfoldable pub LeavesOpen : SendStreamWriter → Type 0
unfolding IsOpen
LeavesOpen w = (w.closed ≡ false) × IsOpen w.sent

if_true : {A : Type 0} (b : Bool) (x y : A) → b ≡ true → (if b then x else y) ≡ x
if_true b x y h = rw h

module _ (send_data : Bytes → Result String (Unit {0})) where
  after_send-LeavesOpen :
      (bytes : Bytes) (w : SendStreamWriter) (r : Result String (Unit {0}))
      → LeavesOpen w
      → LeavesOpen (after_send send_data bytes w r).1
  unfolding LeavesOpen
  after_send-LeavesOpen bytes w (ok u) (c, i) = (c, append-IsOpen w.sent bytes i)
  after_send-LeavesOpen bytes w (err e) h = h

  after_capacity-LeavesOpen :
      (buffer : Bytes) (w : SendStreamWriter) (p : CapacityPoll)
      → LeavesOpen w
      → LeavesOpen (after_capacity send_data buffer w p).1
  unfolding after_capacity send_some LeavesOpen
  after_capacity-LeavesOpen buffer w (granted n) h =
      after_send-LeavesOpen _ (record w { capacity = n }) (send_data _) h
  after_capacity-LeavesOpen buffer w (capacity_error e) h = h
  after_capacity-LeavesOpen buffer w capacity_reset h = h
  after_capacity-LeavesOpen buffer w capacity_pending h = h

  open_write :
      (empty dry : Bool) (buffer : Bytes) (w : SendStreamWriter) (p : CapacityPoll)
      → LeavesOpen w
      → LeavesOpen
          (if empty
            then (ready 0, w)
            else if dry
            then after_capacity send_data buffer (record w { reserved = length buffer }) p
            else send_some send_data buffer w).1
  unfolding LeavesOpen send_some
  open_write true dry buffer w p h = h
  open_write false true buffer w p h =
      after_capacity-LeavesOpen buffer (record w { reserved = length buffer }) p h
  open_write false false buffer w p h = after_send-LeavesOpen _ w (send_data _) h

  poll_write-LeavesOpen :
      (buffer : Bytes) (p : CapacityPoll) (w : SendStreamWriter)
      → LeavesOpen w
      → LeavesOpen (poll_write send_data buffer p w).1
  unfolding poll_write LeavesOpen
  poll_write-LeavesOpen buffer p w (c, i) =
      subst
        (λ b.
          LeavesOpen
            (if b
              then (failed "stream already closed", w)
              else if length buffer == 0
              then (ready 0, w)
              else if w.capacity == 0
              then after_capacity send_data buffer (record w { reserved = length buffer }) p
              else send_some send_data buffer w).1)
        (sym c) (open_write (length buffer == 0) (w.capacity == 0) buffer w p (c, i))

  pub use_writer : List WriterUse → SendStreamWriter → SendStreamWriter
  use_writer [] w = w
  use_writer (writes buffer p ∷ us) w = use_writer us (poll_write send_data buffer p w).1
  use_writer (closes outcome ∷ us) w = use_writer us (poll_close outcome w)

  -- A closed writer stays as it is.
  use_writer-closed :
      (us : List WriterUse) (w : SendStreamWriter) → w.closed ≡ true → use_writer us w ≡ w
  unfolding use_writer poll_write poll_close
  use_writer-closed [] w h = refl
  use_writer-closed (writes buffer p ∷ us) w h =
      ap {A = Polled ℕ × SendStreamWriter} (λ x. use_writer us x.1) (if_true w.closed _ _ h)
      ∙ use_writer-closed us w h
  use_writer-closed (closes outcome ∷ us) w h =
      ap (use_writer us) (if_true w.closed _ _ h) ∙ use_writer-closed us w h

  after_end-closed :
      (outcome : Result String (Unit {0})) (w : SendStreamWriter)
      → (after_end outcome (record w { closed = true })).closed ≡ true
  after_end-closed (ok u) w = refl
  after_end-closed (err e) w = refl

  after_end-EndsOnce :
      (outcome : Result String (Unit {0})) (us : List WriterUse) (w : SendStreamWriter)
      → IsOpen w.sent
      → EndsOnce (ends (closes outcome ∷ us)) (after_end outcome (record w { closed = true })).sent
  unfolding ends EndsOnce
  after_end-EndsOnce (ok u) us w i = (w.sent, i, refl)
  after_end-EndsOnce (err e) us w i = i

  -- However an open writer is used, whatever the capacity polls and the sends answer: it is closed just
  -- where a use closes it, no frame but the last ends the stream, and the last does just where the send
  -- at the first close is accepted.
  pub use_writer-EndsOnce :
      (us : List WriterUse) (w : SendStreamWriter)
      → LeavesOpen w
      → ((use_writer us w).closed ≡ has_close us) × EndsOnce (ends us) (use_writer us w).sent
  unfolding use_writer has_close ends EndsOnce LeavesOpen poll_close
  use_writer-EndsOnce [] w h = h
  use_writer-EndsOnce (writes buffer p ∷ us) w h =
      use_writer-EndsOnce us _ (poll_write-LeavesOpen buffer p w h)
  use_writer-EndsOnce (closes outcome ∷ us) w (c, i) =
      let closed = after_end outcome (record w { closed = true }) in
      let e : poll_close outcome w ≡ closed = rw c in
      let stays = ap (use_writer us) e ∙ use_writer-closed us closed (after_end-closed outcome w) in
      subst (λ v. (v.closed ≡ true) × EndsOnce (ends (closes outcome ∷ us)) v.sent) (sym stays)
        (after_end-closed outcome w, after_end-EndsOnce outcome us w i)
