-- ===== src/Edge/Quic/Quiche/Drive.antt =====
-- src/edge/quic/quiche/mod.rs, `drive`: the task between the socket and the connection. Each
-- definition is what the task does under one lock.
use libcfd.Prelude.{
  [], ℕ, String, Bool, true, false, List, ◌∷◌, ◌++◌, ◌&&◌, ◌||◌, Option, none, some, Bytes,
  if◌then◌else◌,
}
use libcfd.Edge.Quic.Quiche.{
  Connection, Inner, QuicConnection, with_inner, send_sequence, wrapping_increment, wake_all,
}
use libcfd.Edge.Quic.Quiche.Wakers.{remove_each, tasks}

-- The branch of `select!` that completes; the socket is ready with the datagrams up to the first
-- failed receive.
pub data Selected : Type 0 where
  notified slept kicked readable_failed : Selected
  readable : List Bytes → Selected

-- What a turn of the task meets: whether a keepalive is due, and whether the socket takes each
-- datagram.
pub record Turn : Type 0 where
  pub keepalive_due : Bool
  pub taken_datagrams : List Bool
  pub selected : Selected

-- A turn ends the task or goes on.
pub data Driven (Q : Type 0) : Type 0 where
  stopped going_on : QuicConnection Q → Driven Q

module _ {Q : Type 0} (quiche : Connection Q) where
  unfoldable pub keep_alive : Bool → Q → Q
  keep_alive due q = if due && quiche.is_established q then quiche.send_ack_eliciting q else q

  -- Datagrams are sent until quiche has none or the socket fails.
  unfoldable pub flush : List Bool → Q → Q
  flush [] q = q
  flush (sent ∷ socket) q = after_send (quiche.send q) sent (flush socket)
    where
      after_send : Option (Bytes × Q) → Bool → (Q → Q) → Q
      after_send none sent loop = q
      after_send (some (datagram, q')) true loop = loop q'
      after_send (some (datagram, q')) false loop = q'

  unfoldable receive_all : List Bytes → Q → Q
  receive_all [] q = q
  receive_all (datagram ∷ datagrams) q = receive_all datagrams (quiche.recv datagram q)

  unfoldable pub after_select : Selected → Q → Q
  unfolding receive_all
  after_select notified q = q
  after_select slept q = quiche.on_timeout q
  after_select kicked q = q
  after_select readable_failed q = q
  after_select (readable datagrams) q = receive_all datagrams q

  unfoldable pub reason : Option String → Bool → String
  reason (some e) timed_out = e
  reason none true = "idle timeout"
  reason none false = "connection closed"

  unfoldable pub note_closed : Bool → Inner Q → Inner Q
  unfolding reason
  note_closed false g = g
  note_closed true g =
      let timed_out = quiche.is_timed_out g.connection in
      record g {
        closed = true;
        timed_out = timed_out;
        close_reason = some (reason (quiche.peer_error g.connection) timed_out);
      }

  -- The wakers of the streams with data, and all of those that wait to write.
  unfoldable pub wake_streams : QuicConnection Q → QuicConnection Q
  unfolding remove_each tasks note_closed
  wake_streams c =
      let q = c.inner.connection in
      let (readers, waiting) = remove_each (quiche.readable q) c.inner.read_wakers in
      let (writers, blocked) = remove_each (quiche.writable q) c.inner.write_wakers in
      record c {
        inner = note_closed (quiche.is_closed q) (record c.inner {
          established = c.inner.established || quiche.is_established q;
          read_wakers = waiting;
          write_wakers = [];
        });
        woken = c.woken ++ readers ++ (writers ++ tasks blocked);
      }

  -- Past the wake-ups: a closed connection wakes all the others too and ends the task.
  unfoldable after_wake : Bool → ℕ → QuicConnection Q → Driven Q × ℕ
  unfolding wake_all
  after_wake true sequence c =
      (stopped (send_sequence (wrapping_increment sequence) (wake_all c)), sequence)
  after_wake false sequence c =
      (going_on (send_sequence (wrapping_increment sequence) c), wrapping_increment sequence)

  unfoldable selected_turn : Selected → ℕ → QuicConnection Q → Driven Q × ℕ
  unfolding after_select wake_streams after_wake
  selected_turn readable_failed sequence c = (stopped c, sequence)
  selected_turn selected sequence c =
      let q = after_select selected c.inner.connection in
      after_wake (quiche.is_closed q) sequence
        (wake_streams (with_inner c (record c.inner { connection = q })))

  -- One turn. The variable `sequence` of the task is passed along.
  unfoldable drive_turn : Turn → ℕ → QuicConnection Q → Driven Q × ℕ
  unfolding keep_alive flush selected_turn
  drive_turn t sequence c = selected_turn t.selected sequence (
      with_inner c (record c.inner {
        connection = flush t.taken_datagrams (keep_alive t.keepalive_due c.inner.connection);
      }))
