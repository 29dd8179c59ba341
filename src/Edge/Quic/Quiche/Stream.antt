-- ===== src/Edge/Quic/Quiche/Stream.antt =====
-- src/edge/quic/quiche/stream.rs: one stream of the connection as a byte stream. A clone shares the
-- connection and keeps its own `read_eof`.
use libcfd.Prelude.{
  [], ℕ, String, Bool, true, false, ◌++◌, ◌||◌, Result, ok, err, Bytes, length, if◌then◌else◌,
}
use libcfd.Edge.Quic.Quiche.{
  QuicheError, done, invalid_stream_state, other, Connection, QuicConnection, with_inner,
  notify_waiters,
}
use libcfd.Edge.Quic.Quiche.Wakers.{lookup, insert, remove, taken}

-- `io::Error` with its kind.
pub data IoError : Type 0 where
  connection_reset connection_aborted broken_pipe other_io : String → IoError

pub data Polled (A : Type 0) : Type 0 where
  ready : Result IoError A → Polled A
  pending : Polled A

pub record QuicStream : Type 0 where
  pub stream_identifier : ℕ
  pub read_eof : Bool

abbrev pub new : ℕ → QuicStream
new i = record { stream_identifier = i; read_eof = false }

abbrev pub closed_error : IoError
closed_error = connection_reset "quic connection closed"

unfoldable stream_error : QuicheError → IoError
stream_error invalid_stream_state = connection_aborted "stream state error"
stream_error done = other_io "Done"
stream_error (other e) = other_io e

module _ {Q : Type 0} (quiche : Connection Q) where
  abbrev State : Type 0
  State = QuicStream × QuicConnection Q

  unfoldable pub set_connection : QuicConnection Q → Q → QuicConnection Q
  set_connection c q = with_inner c (record c.inner { connection = q })

  unfoldable pub finish : QuicStream → QuicConnection Q → QuicConnection Q
  unfolding set_connection
  finish s c = notify_waiters (
      if c.inner.closed
      then c
      else set_connection c (quiche.stream_send s.stream_identifier [] true c.inner.connection).1)

  unfoldable pub cancel_write : QuicStream → QuicConnection Q → QuicConnection Q
  unfolding taken lookup remove
  cancel_write s c = if c.inner.closed then c else record c {
    inner = record c.inner {
      connection = quiche.shutdown_write s.stream_identifier c.inner.connection;
      write_wakers = remove s.stream_identifier c.inner.write_wakers;
    };
    woken = c.woken ++ taken (lookup s.stream_identifier c.inner.write_wakers);
  }

  unfoldable pub stop_read : QuicStream → QuicConnection Q → QuicConnection Q
  unfolding set_connection
  stop_read s c =
      if c.inner.closed
      then c
      else set_connection c (quiche.shutdown_read s.stream_identifier c.inner.connection)

  -- An answer that ends the poll; no bytes at the end of the stream set `read_eof` as any others do.
  unfoldable pub received : Bytes → Bool → QuicStream → QuicConnection Q → Polled Bytes × State
  received bytes fin s c =
      (ready (ok bytes), (record s { read_eof = s.read_eof || fin }, notify_waiters c))

  unfoldable pub unregister : QuicStream → QuicConnection Q → QuicConnection Q
  unregister s c =
      with_inner c (record c.inner { read_wakers = remove s.stream_identifier c.inner.read_wakers })

  unfoldable pub register : QuicStream → ℕ → QuicConnection Q → QuicConnection Q
  register s waker c =
      with_inner c
        (record c.inner { read_wakers = insert s.stream_identifier waker c.inner.read_wakers })

  -- The second `stream_recv`, with the waker registered.
  unfoldable pub after_second :
      Result QuicheError (Bytes × Bool) × Q → QuicStream → QuicConnection Q → Polled Bytes × State
  unfolding set_connection received unregister stream_error
  after_second (ok (bytes, fin), q) s c = received bytes fin s (unregister s (set_connection c q))
  after_second (err done, q) s c = (pending, (s, set_connection c q))
  after_second (err invalid_stream_state, q) s c = (pending, (s, set_connection c q))
  after_second (err (other e), q) s c =
      (ready (err (stream_error (other e))), (s, unregister s (set_connection c q)))

  unfoldable pub register_and_retry : ℕ → ℕ → QuicStream → QuicConnection Q → Polled Bytes × State
  unfolding register after_second
  register_and_retry waker size s c =
      after_second (quiche.stream_recv s.stream_identifier size c.inner.connection) s
        (register s waker c)

  -- The first `stream_recv`.
  unfoldable pub after_first :
      Result QuicheError (Bytes × Bool) × Q
      → ℕ
      → ℕ
      → QuicStream
      → QuicConnection Q
      → Polled Bytes × State
  unfolding set_connection received register_and_retry stream_error
  after_first (ok (bytes, fin), q) waker size s c = received bytes fin s (set_connection c q)
  after_first (err done, q) waker size s c = register_and_retry waker size s (set_connection c q)
  after_first (err invalid_stream_state, q) waker size s c =
      register_and_retry waker size s (set_connection c q)
  after_first (err (other e), q) waker size s c =
      (ready (err (stream_error (other e))), (s, set_connection c q))

  -- A poll of the task `waker` with a buffer of `size` bytes.
  unfoldable pub poll_read : ℕ → ℕ → QuicStream → QuicConnection Q → Polled Bytes × State
  unfolding after_first
  poll_read waker size s c =
      if c.inner.closed
      then (ready (err closed_error), (s, c))
      else (if s.read_eof
          then (ready (ok []), (s, c))
          else after_first (quiche.stream_recv s.stream_identifier size c.inner.connection) waker
              size s c)

  unfoldable pub register_writer : ℕ → Bytes → QuicStream → QuicConnection Q → QuicConnection Q
  unfolding insert
  register_writer waker buffer s c = with_inner c (record c.inner {
    connection = quiche.stream_writable s.stream_identifier (length buffer) c.inner.connection;
    write_wakers = insert s.stream_identifier waker c.inner.write_wakers;
  })

  unfoldable pub after_send :
      Result QuicheError ℕ × Q
      → ℕ
      → Bytes
      → QuicStream
      → QuicConnection Q
      → Polled ℕ × QuicConnection Q
  unfolding set_connection register_writer stream_error
  after_send (ok n, q) waker buffer s c = (ready (ok n), notify_waiters (set_connection c q))
  after_send (err done, q) waker buffer s c =
      (pending, register_writer waker buffer s (set_connection c q))
  after_send (err invalid_stream_state, q) waker buffer s c =
      (ready (err (broken_pipe "stream is not open")), set_connection c q)
  after_send (err (other e), q) waker buffer s c =
      (ready (err (stream_error (other e))), set_connection c q)

  unfoldable pub poll_write :
      ℕ → Bytes → QuicStream → QuicConnection Q → Polled ℕ × QuicConnection Q
  unfolding after_send
  poll_write waker buffer s c =
      if c.inner.closed
      then (ready (err closed_error), c)
      else after_send (quiche.stream_send s.stream_identifier buffer false c.inner.connection) waker
          buffer s c

  unfoldable pub poll_close : QuicStream → QuicConnection Q → Polled (Unit {0}) × QuicConnection Q
  unfolding finish
  poll_close s c = (ready (ok tt), finish s c)
