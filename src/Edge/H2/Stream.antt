-- ===== src/Edge/H2/Stream.antt =====
-- src/edge/h2/stream.rs: the byte streams over the body of a request and of a response. The h2
-- stream is what its polls answer; the release of flow-control capacity is the h2 crate's.
pub mod Content
pub mod Frames
use libcfd.Prelude.{
  [], ℕ, ◌+◌, ◌-◌, String, Bool, true, false, List, ◌∷◌, ◌++◌, Option, none, some, Result, ok, err,
  ltb, ◌==◌, if◌then◌else◌, min, length, take, drop, Bytes,
}

-- An answer of `RecvStream::poll_data`; the end of the list is the end of the body.
pub data DataPoll : Type 0 where
  data_chunk : Bytes → DataPoll
  data_error : String → DataPoll
  data_pending : DataPoll

-- An answer of a poll: an error of the stream, the bytes put into the buffer, or nothing yet.
pub data Polled (A : Type 0) : Type 0 where
  ready : A → Polled A
  failed : String → Polled A
  pending : Polled A

pub record ReceiveStreamReader : Type 0 where
  pub receive : List DataPoll
  pub chunk : Option Bytes
  pub position : ℕ
  pub eof : Bool
  -- The capacity given back to the peer so far.
  pub released : ℕ

abbrev pub new : List DataPoll → ReceiveStreamReader
new receive = record { receive = receive; chunk = none; position = 0; eof = false; released = 0 }

module _ (release_capacity : ℕ → Result String (Unit {0})) where
  -- The end of a chunk: its capacity is released.
  abbrev finish_chunk :
      ℕ
      → Bytes
      → ReceiveStreamReader
      → Result String (Unit {0})
      → Polled Bytes × ReceiveStreamReader
  finish_chunk used bytes r (err e) = (failed e, r)
  finish_chunk used bytes r (ok _) =
      (ready bytes, record r { chunk = none; position = 0; released = r.released + used })

  -- After the copy of `bytes`: whether some of the chunk is left.
  abbrev after_copy :
      Bool → Bytes → Bytes → ReceiveStreamReader → Polled Bytes × ReceiveStreamReader
  after_copy true chunk bytes r = (ready bytes, record r { chunk = some chunk })
  after_copy false chunk bytes r =
      finish_chunk (length chunk) bytes r (release_capacity (length chunk))

  -- `n` bytes of the chunk at `position`, of a buffer of that many bytes at least.
  unfoldable pub deliver : Bytes → ℕ → ReceiveStreamReader → Polled Bytes × ReceiveStreamReader
  deliver chunk n r =
      after_copy (ltb (r.position + n) (length chunk)) chunk (take n (drop r.position chunk))
        (record r { position = r.position + n; chunk = none })

  -- The loop from `poll_data` on.
  unfoldable pub next_data :
      List DataPoll → ℕ → ReceiveStreamReader → Polled Bytes × ReceiveStreamReader
  next_data [] size r = (ready [], record r { receive = []; chunk = none; eof = true })
  next_data (data_error e ∷ receive) size r =
      (failed e, record r { receive = receive; chunk = none })
  next_data (data_pending ∷ receive) size r =
      (pending, record r { receive = receive; chunk = none })
  next_data (data_chunk chunk ∷ receive) size r =
      let rest = next_data receive size (record r { position = 0 }) in
      if ltb r.position (length chunk)
      then deliver chunk (min (length chunk - r.position) size) (record r { receive = receive })
      else rest

  unfoldable pub read_held :
      Option Bytes → ℕ → ReceiveStreamReader → Polled Bytes × ReceiveStreamReader
  unfolding deliver next_data
  read_held none size r = next_data r.receive size r
  read_held (some chunk) size r =
      if ltb r.position (length chunk)
      then deliver chunk (min (length chunk - r.position) size) r
      else next_data r.receive size (record r { position = 0 })

  unfoldable pub poll_read : ℕ → ReceiveStreamReader → Polled Bytes × ReceiveStreamReader
  unfolding read_held
  poll_read size r = if r.eof then (ready [], r) else read_held r.chunk size r

-- The answers of `poll_capacity`.
pub data CapacityPoll : Type 0 where
  granted : ℕ → CapacityPoll
  capacity_error : String → CapacityPoll
  capacity_reset capacity_pending : CapacityPoll

-- The write side: the capacity it has, the size last reserved and the data frames sent.
pub record SendStreamWriter : Type 0 where
  pub capacity : ℕ
  pub reserved : ℕ
  pub sent : List (Bytes × Bool)
  pub closed : Bool

module _ (send_data : Bytes → Result String (Unit {0})) where
  abbrev after_send :
      Bytes → SendStreamWriter → Result String (Unit {0}) → Polled ℕ × SendStreamWriter
  after_send bytes w (err e) = (failed e, w)
  after_send bytes w (ok _) = (
    ready (length bytes),
    record w { capacity = w.capacity - length bytes; sent = w.sent ++ (bytes, false) ∷ [] },
  )

  unfoldable pub send_some : Bytes → SendStreamWriter → Polled ℕ × SendStreamWriter
  send_some buffer w =
      let bytes = take (min (length buffer) w.capacity) buffer in
      after_send bytes w (send_data bytes)

  unfoldable pub after_capacity :
      Bytes → SendStreamWriter → CapacityPoll → Polled ℕ × SendStreamWriter
  unfolding send_some
  after_capacity buffer w (granted capacity) = send_some buffer (record w { capacity = capacity })
  after_capacity buffer w (capacity_error e) = (failed e, w)
  after_capacity buffer w capacity_reset = (failed "stream reset by peer", w)
  after_capacity buffer w capacity_pending = (pending, w)

  unfoldable pub poll_write : Bytes → CapacityPoll → SendStreamWriter → Polled ℕ × SendStreamWriter
  unfolding after_capacity send_some
  poll_write buffer poll w =
      if w.closed
      then (failed "stream already closed", w)
      else if length buffer == 0
      then (ready 0, w)
      else if w.capacity == 0
      then after_capacity buffer (record w { reserved = length buffer }) poll
      else send_some buffer w

-- Past the end frame: where its send is refused the error is dropped.
abbrev pub after_end : Result String (Unit {0}) → SendStreamWriter → SendStreamWriter
after_end (ok _) w = record w { sent = w.sent ++ ([], true) ∷ [] }
after_end (err e) w = w

-- `outcome` is that of the send of the end frame.
unfoldable pub poll_close : Result String (Unit {0}) → SendStreamWriter → SendStreamWriter
poll_close outcome w = if w.closed then w else after_end outcome (record w { closed = true })
