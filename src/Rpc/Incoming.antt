-- ===== src/Rpc/Incoming.antt =====
-- rpc/src/rpc.rs, `read_incoming`: the next message of a stream in summary. `root` stands for Cap'n
-- Proto's reading of the message.
use libcfd.Prelude.{ℕ, ◌≡◌, ◌<◌, length, List, ◌∷◌, ◌++◌, Option, none, some, ok, err, ◌>>=◌, Bytes}
use libcfd.Rpc.Error.{eof, protocol, abort, remote_call, io, RpcResult}
use libcfd.Rpc.Io.{Segments, Stream, read_message}
use libcfd.Rpc.Io.Chunks.{content, IsSmooth}
use libcfd.Rpc.Io.Frame.{frame, IsFrameable}
use libcfd.Rpc.Io.RoundTrip.{read_message-frame}
use libcfd.Rpc.Io.Cut.{read_message-cut}
use libcfd.Rpc.Server as Server
use libcfd.Rpc.Server.{Frame}

pub data Incoming : Type 0 where
  bootstrap : (question_identifier : ℕ) → Incoming
  call : (question_identifier interface_identifier method_identifier : ℕ) → Incoming
  finish : (question_identifier : ℕ) → Incoming
  release other : Incoming

pub incoming_of : Frame → Incoming
incoming_of (Server.bootstrap question) = bootstrap question
incoming_of (Server.call question interface_identifier method_identifier parameters) =
    call question interface_identifier method_identifier
incoming_of (Server.finish question) = finish question
incoming_of Server.release = release
incoming_of Server.other_frame = other

module _ (root : Segments → RpcResult Frame) where
  after_read : RpcResult (Segments × Stream) → RpcResult (Option (Incoming × Stream))
  after_read (ok (reader, s)) = root reader >>= λ f. ok (some (incoming_of f, s))
  after_read (err eof) = ok none
  after_read (err (protocol e)) = err (protocol e)
  after_read (err (abort reason error_type)) = err (abort reason error_type)
  after_read (err (remote_call e)) = err (remote_call e)
  after_read (err (io e)) = err (io e)

  -- The summary, with the stream behind the message; none at the end of the stream.
  pub read_incoming : Stream → RpcResult (Option (Incoming × Stream))
  unfolding after_read
  read_incoming s = after_read (read_message s)

module _ (root : Segments → RpcResult Frame) (first : ℕ) (others : List ℕ) (words : Bytes)
    (s : Stream) (framed : IsFrameable first others words) (smooth : IsSmooth s) where
  -- Through any chunks of the transport, a framed message is read in summary and what is behind it is
  -- left.
  read_incoming-frame :
      (f : Frame) (rest : Bytes)
      → content s ≡ frame first others words ++ rest
      → root (record { lengths = first ∷ others; words = words }) ≡ ok f
      → (s' : Stream) × (read_incoming root s ≡ ok (some (incoming_of f, s'))) × (content s' ≡ rest)
  unfolding read_incoming after_read
  read_incoming-frame f rest e read =
      let (s', r, v, left) = read_message-frame first others words rest s framed smooth e in
      (s', rw (r, read), left)

  -- A stream that ends inside a message reads as one that has ended.
  read_incoming-cut :
      (missing : Bytes)
      → content s ++ missing ≡ frame first others words
      → 0 < length missing
      → read_incoming root s ≡ ok none
  unfolding read_incoming after_read
  read_incoming-cut missing e h =
      rw (read_message-cut first others words missing s framed smooth e h)
