-- ===== src/Edge/Quic/Quiche/Awaits.antt =====
-- A task that waits to read is kept waiting, or is woken, by what the others do.
use libcfd.Prelude.{
  [], ℕ, ◌≡◌, ◌≢◌, refl, ap, ◌∙◌, Bool, true, false, List, ◌++◌, some, ◌⊎◌, inl, inr, Result, ok,
  err, Bytes, if◌then◌else◌, arith,
}
use libcfd.Edge.Quic.Quiche.{
  Connection, Inner, QuicConnection, wake_all, accept_stream, QuicheError, done,
  invalid_stream_state, other,
}
use libcfd.Edge.Quic.Quiche.Wakers.{
  lookup, taken, tasks, is_member, is_member-left, is_member-right, lookup-tasks, lookup-remove,
  lookup-insert_other, lookup-remove_each, remove_each-member,
}
use libcfd.Edge.Quic.Quiche.Stream.{
  QuicStream, poll_read, poll_write, finish, cancel_write, stop_read, set_connection, after_first,
  after_second, received, unregister, closed_error, register, register_and_retry, after_send,
  register_writer, ready,
}
use libcfd.Edge.Quic.Quiche.Drive.{wake_streams, note_closed}

-- The task waits for the stream's data, or it has been woken.
unfoldable pub Awaits : {Q : Type 0} → ℕ → ℕ → QuicConnection Q → Type 0
Awaits i w c = (lookup i c.inner.read_wakers ≡ some w) ⊎ (is_member w c.woken ≡ true)

-- What a step keeps of the readers of other streams.
unfoldable pub Keeps : {Q : Type 0} → ℕ → ℕ → QuicConnection Q → QuicConnection Q → Type 0
Keeps i w c d = Awaits i w c → Awaits i w d

module _ {Q : Type 0} (quiche : Connection Q) where
  unregister-Keeps :
      (i w : ℕ) (s : QuicStream) (c : QuicConnection Q)
      → i ≢ s.stream_identifier
      → Keeps i w c (unregister quiche s c)
  unfolding Keeps Awaits unregister
  unregister-Keeps i w s c n (inl h) =
      inl (lookup-remove i s.stream_identifier c.inner.read_wakers n ∙ h)
  unregister-Keeps i w s c n (inr h) = inr h

  register-Keeps :
      (i w v : ℕ) (s : QuicStream) (c : QuicConnection Q)
      → i ≢ s.stream_identifier
      → Keeps i w c (register quiche s v c)
  unfolding Keeps Awaits register
  register-Keeps i w v s c n (inl h) =
      inl (lookup-insert_other i s.stream_identifier v c.inner.read_wakers n ∙ h)
  register-Keeps i w v s c n (inr h) = inr h

  after_second-Keeps :
      (i w : ℕ) (r : Result QuicheError (Bytes × Bool) × Q) (s : QuicStream) (c : QuicConnection Q)
      → i ≢ s.stream_identifier
      → Keeps i w c (after_second quiche r s c).1.1
  unfolding Keeps after_second received set_connection Awaits
  after_second-Keeps i w (ok (bytes, fin), q) s c n h =
      unregister-Keeps i w s (set_connection quiche c q) n h
  after_second-Keeps i w (err done, q) s c n h = h
  after_second-Keeps i w (err invalid_stream_state, q) s c n h = h
  after_second-Keeps i w (err (other e), q) s c n h =
      unregister-Keeps i w s (set_connection quiche c q) n h

  after_first-Keeps :
      (i w v size : ℕ) (r : Result QuicheError (Bytes × Bool) × Q) (s : QuicStream)
      (c : QuicConnection Q)
      → i ≢ s.stream_identifier
      → Keeps i w c (after_first quiche r v size s c).1.1
  unfolding Keeps after_first received set_connection Awaits register_and_retry
  after_first-Keeps i w v size (ok (bytes, fin), q) s c n h = h
  after_first-Keeps i w v size (err done, q) s c n h =
      after_second-Keeps i w (quiche.stream_recv s.stream_identifier size q) s
        (register quiche s v (set_connection quiche c q)) n
        (register-Keeps i w v s (set_connection quiche c q) n h)
  after_first-Keeps i w v size (err invalid_stream_state, q) s c n h =
      after_second-Keeps i w (quiche.stream_recv s.stream_identifier size q) s
        (register quiche s v (set_connection quiche c q)) n
        (register-Keeps i w v s (set_connection quiche c q) n h)
  after_first-Keeps i w v size (err (other e), q) s c n h = h

  pub poll_read-Keeps :
      (i w v size : ℕ) (s : QuicStream) (c : QuicConnection Q)
      → i ≢ s.stream_identifier
      → Keeps i w c (poll_read quiche v size s c).1.1
  unfolding Keeps poll_read Awaits
  poll_read-Keeps i w v size s c n h = chosen c.inner.closed s.read_eof
    where
      chosen :
          (b e : Bool)
          → Awaits i w
              (if b
                then (ready (err closed_error), (s, c))
                else (if e
                    then (ready (ok []), (s, c))
                    else after_first quiche
                        (quiche.stream_recv s.stream_identifier size c.inner.connection)
                        v
                        size
                        s
                        c)).1.1
      chosen true e = h
      chosen false true = h
      chosen false false =
          after_first-Keeps i w v size
            (quiche.stream_recv s.stream_identifier size c.inner.connection) s c n h

  after_send-Keeps :
      (i w v : ℕ) (r : Result QuicheError ℕ × Q) (buffer : Bytes) (s : QuicStream)
      (c : QuicConnection Q)
      → Keeps i w c (after_send quiche r v buffer s c).1
  unfolding Keeps after_send Awaits set_connection register_writer
  after_send-Keeps i w v (ok n, q) buffer s c h = h
  after_send-Keeps i w v (err done, q) buffer s c h = h
  after_send-Keeps i w v (err invalid_stream_state, q) buffer s c h = h
  after_send-Keeps i w v (err (other e), q) buffer s c h = h

  still_woken :
      (w : ℕ) (c : QuicConnection Q) (xs ys : List ℕ)
      → is_member w c.woken ≡ true
      → is_member w ((c.woken ++ xs) ++ ys) ≡ true
  still_woken w c xs ys h = is_member-left w (c.woken ++ xs) ys (is_member-left w c.woken xs h)

  pub wake_all-Keeps :
      (i w : ℕ) (c : QuicConnection Q) → Awaits i w c → is_member w (wake_all c).woken ≡ true
  unfolding Awaits wake_all
  wake_all-Keeps i w c (inl h) =
      is_member-left w (c.woken ++ tasks c.inner.read_wakers) _
        (is_member-right w c.woken _ (lookup-tasks i w c.inner.read_wakers h))
  wake_all-Keeps i w c (inr h) = still_woken w c _ _ h

  -- `note_closed` leaves the maps alone.
  note_closed-read_wakers :
      (b : Bool) (g : Inner Q) → (note_closed quiche b g).read_wakers ≡ g.read_wakers
  unfolding note_closed
  note_closed-read_wakers true g = refl
  note_closed-read_wakers false g = refl

  pub wake_streams-Keeps : (i w : ℕ) (c : QuicConnection Q) → Keeps i w c (wake_streams quiche c)
  unfolding Keeps Awaits wake_streams
  wake_streams-Keeps i w c (inl h) =
      elim (lookup-remove_each i w (quiche.readable c.inner.connection) c.inner.read_wakers h) [
        | inl l ↦ inl (ap (λ m. lookup i m) (note_closed-read_wakers _ _) ∙ l)
        | inr m ↦ inr (is_member-left w (c.woken ++ _) _ (is_member-right w c.woken _ m))
      ]
  wake_streams-Keeps i w c (inr h) = inr (still_woken w c _ _ h)

  pub wake_streams-wakes :
      (i w : ℕ) (c : QuicConnection Q)
      → is_member i (quiche.readable c.inner.connection) ≡ true
      → Awaits i w c
      → is_member w (wake_streams quiche c).woken ≡ true
  unfolding Awaits wake_streams
  wake_streams-wakes i w c r (inl h) =
      is_member-left w (c.woken ++ _) _
        (is_member-right w c.woken _ (remove_each-member i w _ c.inner.read_wakers h r))
  wake_streams-wakes i w c r (inr h) = still_woken w c _ _ h

  pub accept_stream-Keeps :
      (i w : ℕ) (c : QuicConnection Q) → Keeps i w c (accept_stream quiche c).1
  unfolding Keeps Awaits accept_stream
  accept_stream-Keeps i w c h = ground arith

  pub finish-Keeps :
      (i w : ℕ) (s : QuicStream) (c : QuicConnection Q) → Keeps i w c (finish quiche s c)
  unfolding Keeps Awaits finish set_connection
  finish-Keeps i w s c h = ground arith

  pub cancel_write-Keeps :
      (i w : ℕ) (s : QuicStream) (c : QuicConnection Q) → Keeps i w c (cancel_write quiche s c)
  unfolding Keeps Awaits cancel_write
  cancel_write-Keeps i w s c h =
      ground
        (arith, is_member-left w c.woken (taken (lookup s.stream_identifier c.inner.write_wakers)))

  pub stop_read-Keeps :
      (i w : ℕ) (s : QuicStream) (c : QuicConnection Q) → Keeps i w c (stop_read quiche s c)
  unfolding Keeps Awaits stop_read set_connection
  stop_read-Keeps i w s c h = ground arith

  pub poll_write-Keeps :
      (i w v : ℕ) (buffer : Bytes) (s : QuicStream) (c : QuicConnection Q)
      → Keeps i w c (poll_write quiche v buffer s c).1
  unfolding Keeps poll_write Awaits
  poll_write-Keeps i w v buffer s c h = chosen c.inner.closed
    where
      chosen :
          (b : Bool)
          → Awaits i w
              (if b
                then (ready (err closed_error), c)
                else after_send quiche
                    (quiche.stream_send s.stream_identifier buffer false c.inner.connection)
                    v
                    buffer
                    s
                    c).1
      chosen true = h
      chosen false =
          after_send-Keeps i w v
            (quiche.stream_send s.stream_identifier buffer false c.inner.connection) buffer s c h
