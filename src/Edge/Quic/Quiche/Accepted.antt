-- ===== src/Edge/Quic/Quiche/Accepted.antt =====
-- The set of accepted streams changes by `accept_stream` and `release` alone.
use libcfd.Prelude.{ℕ, ◌≡◌, refl, Bool, true, false, Result, ok, err, arith, Bytes}
use libcfd.Edge.Quic.Quiche.{
  Connection, Inner, QuicConnection, close, wake_all, QuicheError, done, invalid_stream_state,
  other,
}
use libcfd.Edge.Quic.Quiche.Stream.{
  QuicStream, poll_read, poll_write, finish, cancel_write, stop_read, set_connection, after_first,
  after_second, received, unregister, register, register_and_retry, after_send, register_writer,
}
use libcfd.Edge.Quic.Quiche.Drive.{wake_streams, note_closed}
use libcfd.Edge.Quic.Quiche.Operations.{
  Operation, reads, writes, finishes, cancels, stops, accepts, releases, closes, keeps_alive,
  flushes, selects, wakes, wakes_all, perform,
}

unfoldable pub IsForeign : Operation → Type 0
IsForeign accepts = ⊥
IsForeign (releases i) = ⊥
IsForeign o = Unit

module _ {Q : Type 0} (quiche : Connection Q) where
  note_closed-accepted : (b : Bool) (g : Inner Q) → (note_closed quiche b g).accepted ≡ g.accepted
  unfolding note_closed
  note_closed-accepted true g = refl
  note_closed-accepted false g = refl

  after_second-accepted :
      (r : Result QuicheError (Bytes × Bool) × Q) (s : QuicStream) (c : QuicConnection Q)
      → (after_second quiche r s c).1.1.inner.accepted ≡ c.inner.accepted
  unfolding after_second received unregister set_connection
  after_second-accepted (ok (bytes, fin), q) s c = refl
  after_second-accepted (err done, q) s c = refl
  after_second-accepted (err invalid_stream_state, q) s c = refl
  after_second-accepted (err (other e), q) s c = refl

  after_first-accepted :
      (r : Result QuicheError (Bytes × Bool) × Q) (w size : ℕ) (s : QuicStream)
      (c : QuicConnection Q)
      → (after_first quiche r w size s c).1.1.inner.accepted ≡ c.inner.accepted
  unfolding after_first received register_and_retry register set_connection
  after_first-accepted (ok (bytes, fin), q) w size s c = refl
  after_first-accepted (err done, q) w size s c =
      after_second-accepted (quiche.stream_recv s.stream_identifier size q) s
        (register quiche s w (set_connection quiche c q))
  after_first-accepted (err invalid_stream_state, q) w size s c =
      after_second-accepted (quiche.stream_recv s.stream_identifier size q) s
        (register quiche s w (set_connection quiche c q))
  after_first-accepted (err (other e), q) w size s c = refl

  after_send-accepted :
      (r : Result QuicheError ℕ × Q) (w : ℕ) (buffer : Bytes) (s : QuicStream)
      (c : QuicConnection Q)
      → (after_send quiche r w buffer s c).1.inner.accepted ≡ c.inner.accepted
  unfolding after_send register_writer set_connection
  after_send-accepted (ok n, q) w buffer s c = refl
  after_send-accepted (err done, q) w buffer s c = refl
  after_send-accepted (err invalid_stream_state, q) w buffer s c = refl
  after_send-accepted (err (other e), q) w buffer s c = refl

  poll_read-accepted :
      (w size : ℕ) (s : QuicStream) (c : QuicConnection Q)
      → (poll_read quiche w size s c).1.1.inner.accepted ≡ c.inner.accepted
  unfolding poll_read
  poll_read-accepted w size s c =
      let rest =
        after_first-accepted (quiche.stream_recv s.stream_identifier size c.inner.connection) w size
          s c in
      ground (arith, rest)

  poll_write-accepted :
      (w : ℕ) (buffer : Bytes) (s : QuicStream) (c : QuicConnection Q)
      → (poll_write quiche w buffer s c).1.inner.accepted ≡ c.inner.accepted
  unfolding poll_write
  poll_write-accepted w buffer s c =
      let rest =
        after_send-accepted (quiche.stream_send s.stream_identifier buffer false c.inner.connection)
          w buffer s c in
      ground (arith, rest)

  wake_streams-accepted :
      (c : QuicConnection Q) → (wake_streams quiche c).inner.accepted ≡ c.inner.accepted
  unfolding wake_streams
  wake_streams-accepted c = note_closed-accepted _ _

  pub perform-accepted :
      (o : Operation) (c : QuicConnection Q)
      → IsForeign o
      → (perform quiche o c).inner.accepted ≡ c.inner.accepted
  unfolding perform IsForeign
  perform-accepted (reads w size s) c f = poll_read-accepted w size s c
  perform-accepted (writes w buffer s) c f = poll_write-accepted w buffer s c
  perform-accepted (finishes s) c f = unfold finish set_connection in ground arith
  perform-accepted (cancels s) c f = unfold cancel_write in ground arith
  perform-accepted (stops s) c f = unfold stop_read set_connection in ground arith
  perform-accepted accepts c f = absurd f
  perform-accepted (releases i) c f = absurd f
  perform-accepted closes c f = unfold close wake_all in refl
  perform-accepted (keeps_alive due) c f = unfold set_connection in refl
  perform-accepted (flushes socket) c f = unfold set_connection in refl
  perform-accepted (selects selected) c f = unfold set_connection in refl
  perform-accepted wakes c f = wake_streams-accepted c
  perform-accepted (wakes_all sequence) c f = unfold wake_all in refl
