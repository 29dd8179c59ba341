-- ===== src/Edge/Quic/Quiche/Operations.antt =====
-- What the tasks that share the connection do, in any order.
use libcfd.Prelude.{[], ℕ, Bool, List, ◌∷◌, Bytes}
use libcfd.Edge.Quic.Quiche.{
  Connection, QuicConnection, send_sequence, wrapping_increment, wake_all, accept_stream, release,
  close,
}
use libcfd.Edge.Quic.Quiche.Stream.{
  QuicStream, poll_read, poll_write, finish, cancel_write, stop_read, set_connection,
}
use libcfd.Edge.Quic.Quiche.Drive.{keep_alive, flush, after_select, Selected, wake_streams}

-- What is done under one lock: by the streams, by the serving task, and by the task of `drive` from
-- its keepalive to the wake-ups that end it.
pub data Operation : Type 0 where
  reads : ℕ → ℕ → QuicStream → Operation
  writes : ℕ → Bytes → QuicStream → Operation
  finishes cancels stops : QuicStream → Operation
  accepts : Operation
  releases : ℕ → Operation
  closes : Operation
  keeps_alive : Bool → Operation
  flushes : List Bool → Operation
  selects : Selected → Operation
  wakes : Operation
  wakes_all : ℕ → Operation

module _ {Q : Type 0} (quiche : Connection Q) where
  unfoldable pub perform : Operation → QuicConnection Q → QuicConnection Q
  perform (reads w size s) c = (poll_read quiche w size s c).1.1
  perform (writes w buffer s) c = (poll_write quiche w buffer s c).1
  perform (finishes s) c = finish quiche s c
  perform (cancels s) c = cancel_write quiche s c
  perform (stops s) c = stop_read quiche s c
  perform accepts c = (accept_stream quiche c).1
  perform (releases i) c = release i c
  perform closes c = close quiche c
  perform (keeps_alive due) c = set_connection quiche c (keep_alive quiche due c.inner.connection)
  perform (flushes socket) c = set_connection quiche c (flush quiche socket c.inner.connection)
  perform (selects selected) c =
      set_connection quiche c (after_select quiche selected c.inner.connection)
  perform wakes c = wake_streams quiche c
  perform (wakes_all sequence) c = send_sequence (wrapping_increment sequence) (wake_all c)

  unfoldable pub perform_all : List Operation → QuicConnection Q → QuicConnection Q
  unfolding perform
  perform_all [] c = c
  perform_all (o ∷ operations) c = perform_all operations (perform o c)
