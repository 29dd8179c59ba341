-- ===== src/Edge/Quic/Quiche/Wakeups.antt =====
-- Who is woken by what the tasks that share the connection do.
use libcfd.Prelude.{
  [], ℕ, ◌≡◌, ◌≢◌, Bool, true, false, List, ◌∷◌, some, inl, inr, Result, ok, err, Bytes,
  if◌then◌else◌,
}
use libcfd.Edge.Quic.Quiche.{
  Connection, QuicConnection, with_inner, release, close, QuicheError, done, invalid_stream_state,
  other,
}
use libcfd.Edge.Quic.Quiche.Wakers.{lookup, is_member, lookup-insert}
use libcfd.Edge.Quic.Quiche.Stream.{
  QuicStream, poll_read, set_connection, after_first, after_second, received, closed_error,
  closed_error, register, register_and_retry, ready, pending,
}
use libcfd.Edge.Quic.Quiche.Operations.{
  Operation, reads, writes, finishes, cancels, stops, accepts, releases, closes, keeps_alive,
  flushes, selects, wakes, wakes_all, perform, perform_all,
}
use libcfd.Edge.Quic.Quiche.Awaits.{
  Awaits, Keeps, poll_read-Keeps, wake_all-Keeps, wake_streams-Keeps, wake_streams-wakes,
  accept_stream-Keeps, finish-Keeps, cancel_write-Keeps, stop_read-Keeps, poll_write-Keeps,
}

-- The operation is no read of the stream: its entry is not replaced by its own reader.
unfoldable pub IsOther : ℕ → Operation → Type 0
IsOther i (reads w size s) = i ≢ s.stream_identifier
IsOther i _ = Unit

unfoldable pub AreOther : ℕ → List Operation → Type 0
unfolding IsOther
AreOther i [] = Unit
AreOther i (o ∷ operations) = IsOther i o × AreOther i operations

module _ {Q : Type 0} (quiche : Connection Q) where
  perform-Keeps :
      (i w : ℕ) (o : Operation) (c : QuicConnection Q)
      → IsOther i o
      → Awaits i w c
      → Awaits i w (perform quiche o c)
  unfolding perform IsOther Keeps
  perform-Keeps i w (reads v size s) c n h = poll_read-Keeps quiche i w v size s c n h
  perform-Keeps i w (writes v buffer s) c n h = poll_write-Keeps quiche i w v buffer s c h
  perform-Keeps i w (finishes s) c n h = finish-Keeps quiche i w s c h
  perform-Keeps i w (cancels s) c n h = cancel_write-Keeps quiche i w s c h
  perform-Keeps i w (stops s) c n h = stop_read-Keeps quiche i w s c h
  perform-Keeps i w accepts c n h = accept_stream-Keeps quiche i w c h
  perform-Keeps i w (releases j) c n h = unfold Awaits release in h
  perform-Keeps i w closes c n h =
      unfold Awaits close in
      inr (
        wake_all-Keeps quiche i w
          (with_inner c
            (record c.inner { connection = quiche.close c.inner.connection; closed = true }))
          h)
  perform-Keeps i w (keeps_alive due) c n h = unfold Awaits set_connection in h
  perform-Keeps i w (flushes socket) c n h = unfold Awaits set_connection in h
  perform-Keeps i w (selects selected) c n h = unfold Awaits set_connection in h
  perform-Keeps i w wakes c n h = wake_streams-Keeps quiche i w c h
  perform-Keeps i w (wakes_all sequence) c n h =
      unfold Awaits in inr (wake_all-Keeps quiche i w c h)

  perform_all-Keeps :
      (i w : ℕ) (operations : List Operation) (c : QuicConnection Q)
      → AreOther i operations
      → Awaits i w c
      → Awaits i w (perform_all quiche operations c)
  unfolding perform_all AreOther
  perform_all-Keeps i w [] c n h = h
  perform_all-Keeps i w (o ∷ operations) c (n, ns) h =
      perform_all-Keeps i w operations (perform quiche o c) ns (perform-Keeps i w o c n h)

  -- The operations that the reader of a stream waits for: the wake-ups with data for it, and the end
  -- of the connection.
  unfoldable pub WakesReader : ℕ → Operation → QuicConnection Q → Type 0
  WakesReader i wakes c = is_member i (quiche.readable c.inner.connection) ≡ true
  WakesReader i closes c = Unit
  WakesReader i (wakes_all sequence) c = Unit
  WakesReader i _ c = ⊥

  perform-wakes :
      (i w : ℕ) (o : Operation) (c : QuicConnection Q)
      → WakesReader i o c
      → Awaits i w c
      → is_member w (perform quiche o c).woken ≡ true
  unfolding WakesReader perform Awaits
  perform-wakes i w wakes c r h = wake_streams-wakes quiche i w c r h
  perform-wakes i w closes c r h =
      unfold close in
      wake_all-Keeps quiche i w
        (with_inner c
          (record c.inner { connection = quiche.close c.inner.connection; closed = true }))
        h
  perform-wakes i w (wakes_all sequence) c r h = wake_all-Keeps quiche i w c h
  perform-wakes i w _ c r h = absurd r

  after_second-registers :
      (w : ℕ) (r : Result QuicheError (Bytes × Bool) × Q) (s : QuicStream) (c : QuicConnection Q)
      → lookup s.stream_identifier c.inner.read_wakers ≡ some w
      → (after_second quiche r s c).0 ≡ pending
      → lookup s.stream_identifier (after_second quiche r s c).1.1.inner.read_wakers ≡ some w
  unfolding after_second received set_connection
  after_second-registers w (ok (bytes, fin), q) s c h p = absurd cc
  after_second-registers w (err done, q) s c h p = h
  after_second-registers w (err invalid_stream_state, q) s c h p = h
  after_second-registers w (err (other e), q) s c h p = absurd cc

  after_first-registers :
      (w size : ℕ) (r : Result QuicheError (Bytes × Bool) × Q) (s : QuicStream)
      (c : QuicConnection Q)
      → (after_first quiche r w size s c).0 ≡ pending
      → lookup s.stream_identifier (after_first quiche r w size s c).1.1.inner.read_wakers ≡ some w
  unfolding after_first received set_connection register_and_retry register
  after_first-registers w size (ok (bytes, fin), q) s c p = absurd cc
  after_first-registers w size (err done, q) s c p =
      after_second-registers w _ s (register quiche s w (set_connection quiche c q))
        (lookup-insert s.stream_identifier w c.inner.read_wakers) p
  after_first-registers w size (err invalid_stream_state, q) s c p =
      after_second-registers w _ s (register quiche s w (set_connection quiche c q))
        (lookup-insert s.stream_identifier w c.inner.read_wakers) p
  after_first-registers w size (err (other e), q) s c p = absurd cc

  poll_read-registers :
      (w size : ℕ) (s : QuicStream) (c : QuicConnection Q)
      → (poll_read quiche w size s c).0 ≡ pending
      → lookup s.stream_identifier (poll_read quiche w size s c).1.1.inner.read_wakers ≡ some w
  unfolding poll_read
  poll_read-registers w size s c = chosen c.inner.closed s.read_eof
    where
      chosen :
          (b e : Bool)
          → let p =
              if b
              then (ready (err closed_error), (s, c))
              else (if e
                  then (ready (ok []), (s, c))
                  else after_first quiche
                      (quiche.stream_recv s.stream_identifier size c.inner.connection)
                      w
                      size
                      s
                      c) in
            p.0 ≡ pending → lookup s.stream_identifier p.1.1.inner.read_wakers ≡ some w
      chosen true e p = absurd cc
      chosen false true p = absurd cc
      chosen false false p = after_first-registers w size _ s c p

  -- A task whose read of a stream pends is not forgotten: whatever the other tasks do in whatever
  -- order, as long as the stream itself is not read again, the next wake-up at which the stream has
  -- data, the close, and the end of the connection have all woken it.
  pub poll_read-woken :
      (w size : ℕ) (s : QuicStream) (c : QuicConnection Q) (operations : List Operation)
      (o : Operation)
      → (poll_read quiche w size s c).0 ≡ pending
      → AreOther s.stream_identifier operations
      → WakesReader s.stream_identifier o
          (perform_all quiche operations (poll_read quiche w size s c).1.1)
      → is_member w
          (perform quiche o (perform_all quiche operations (poll_read quiche w size s c).1.1)).woken
        ≡ true
  poll_read-woken w size s c operations o p n r = perform-wakes s.stream_identifier w o _ r (
      perform_all-Keeps s.stream_identifier w operations _ n
        (unfold Awaits in inl (poll_read-registers w size s c p)))
