-- ===== src/Edge/Quic/Quiche.antt =====
-- src/edge/quic/quiche/mod.rs: the connection over quiche. What quiche keeps is of a type `Q` with
-- the operations of a `Connection`; a stream is its identifier and a waker its task.
pub mod Wakers
pub mod Stream
pub mod Drive
pub mod Operations
pub mod Accepted
pub mod Awaits
pub mod Wakeups
pub mod Reads
pub mod Closed
use libcfd.Prelude.{
  [], ℕ, ◌+◌, ◌%◌, ◌^◌, String, Bool, true, false, List, ◌∷◌, ◌++◌, Option, none, some, Result,
  Bytes, if◌then◌else◌, str_append, ok, err,
}
use libcfd.Edge.Error.{Error, edge, quic}
use libcfd.Edge.Quic.Quiche.Wakers.{WakerMap, tasks, is_member, remove_all}

-- `quiche::Error`, as far as it is told apart.
pub data QuicheError : Type 0 where
  done invalid_stream_state : QuicheError
  other : String → QuicheError

-- `quiche::Connection`: each operation answers with what the connection has become. A result that
-- the code ignores is left out.
pub record Connection (Q : Type 0) : Type 0 where
  pub stream_recv : ℕ → ℕ → Q → Result QuicheError (Bytes × Bool) × Q
  pub stream_send : ℕ → Bytes → Bool → Q → Result QuicheError ℕ × Q
  pub stream_writable : ℕ → ℕ → Q → Q
  pub shutdown_read : ℕ → Q → Q
  pub shutdown_write : ℕ → Q → Q
  pub close : Q → Q
  pub readable : Q → List ℕ
  pub writable : Q → List ℕ
  pub is_established : Q → Bool
  pub is_closed : Q → Bool
  pub is_timed_out : Q → Bool
  pub peer_error : Q → Option String
  pub send_ack_eliciting : Q → Q
  pub send : Q → Option (Bytes × Q)
  pub recv : Bytes → Q → Q
  pub on_timeout : Q → Q

pub record Inner (Q : Type 0) : Type 0 where
  pub connection : Q
  pub read_wakers : WakerMap
  pub write_wakers : WakerMap
  pub accepted : List ℕ
  pub established : Bool
  pub closed : Bool
  pub timed_out : Bool
  pub close_reason : Option String

-- The shared state, with what its tasks have seen of it: the tasks woken, the calls of
-- `notify_waiters`, and the value and the changes of the watch channel.
pub record QuicConnection (Q : Type 0) : Type 0 where
  pub inner : Inner Q
  pub woken : List ℕ
  pub notified : ℕ
  pub sequence : ℕ
  pub changes : ℕ

abbrev pub wrapping_increment : ℕ → ℕ
wrapping_increment n = (n + 1) % 18_446_744_073_709_551_616

-- `watch::Sender::send`.
abbrev pub send_sequence : {Q : Type 0} → ℕ → QuicConnection Q → QuicConnection Q
send_sequence n c = record c { sequence = n; changes = c.changes + 1 }

abbrev pub notify_waiters : {Q : Type 0} → QuicConnection Q → QuicConnection Q
notify_waiters c = record c { notified = c.notified + 1 }

abbrev pub with_inner : {Q : Type 0} → QuicConnection Q → Inner Q → QuicConnection Q
with_inner c g = record c { inner = g }

-- Before the handshake: the control stream counts as accepted.
abbrev pub connected : {Q : Type 0} → Q → QuicConnection Q
connected q = record {
  inner = record {
    connection = q;
    read_wakers = [];
    write_wakers = [];
    accepted = 0 ∷ [];
    established = false;
    closed = false;
    timed_out = false;
    close_reason = none;
  };
  woken = [];
  notified = 0;
  sequence = 0;
  changes = 0;
}

-- One turn of a loop that waits on the watch channel.
pub data Waited (A : Type 0) : Type 0 where
  answered : A → Waited A
  waits : Waited A

abbrev unwrap_or : Option String → String → String
unwrap_or none default = default
unwrap_or (some reason) default = reason

unfoldable wait_established : {Q : Type 0} → Inner Q → Waited (Result Error (Unit {0}))
wait_established g =
    if g.closed
    then answered (
        err (
          edge (
            quic (
              str_append "connection closed during handshake: "
                (unwrap_or g.close_reason "closed")))))
    else (if g.established then answered (ok tt) else waits)

-- `readable.find(|identifier| accepted.insert(*identifier))`.
unfoldable pub find_new : List ℕ → List ℕ → Option ℕ × List ℕ
find_new [] accepted = (none, accepted)
find_new (i ∷ readable) accepted =
    if is_member i accepted then find_new readable accepted else (some i, i ∷ accepted)

unfoldable open_control_stream : ℕ
open_control_stream = 0

unfoldable pub release : {Q : Type 0} → ℕ → QuicConnection Q → QuicConnection Q
release i c = with_inner c (record c.inner { accepted = remove_all i c.inner.accepted })

-- The stream that was found, with the set that the search left.
unfoldable pub after_find :
    {Q : Type 0} → QuicConnection Q → Option ℕ × List ℕ → Waited (Option ℕ) × QuicConnection Q
after_find c (none, accepted) = (waits, with_inner c (record c.inner { accepted = accepted }))
after_find c (some i, accepted) =
    (answered (some i), with_inner c (record c.inner { accepted = accepted }))

-- Every waker is woken and both maps are cleared.
unfoldable pub wake_all : {Q : Type 0} → QuicConnection Q → QuicConnection Q
unfolding tasks
wake_all c = record c {
  inner = record c.inner { read_wakers = []; write_wakers = [] };
  woken = c.woken ++ tasks c.inner.read_wakers ++ tasks c.inner.write_wakers;
}

module _ {Q : Type 0} (quiche : Connection Q) where
  -- One turn of the loop: the connection is closed, a stream is accepted, or it waits.
  unfoldable pub accept_stream : QuicConnection Q → Waited (Option ℕ) × QuicConnection Q
  unfolding find_new after_find
  accept_stream c =
      if c.inner.closed
      then (answered none, c)
      else after_find c (find_new (quiche.readable c.inner.connection) c.inner.accepted)

  unfoldable pub close : QuicConnection Q → QuicConnection Q
  unfolding wake_all
  close c =
      let closing = record c.inner {
        connection = quiche.close c.inner.connection;
        closed = true;
      } in
      let c' = notify_waiters (wake_all (with_inner c closing)) in
      send_sequence (wrapping_increment c'.sequence) c'
