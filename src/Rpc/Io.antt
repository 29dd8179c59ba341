-- ===== src/Rpc/Io.antt =====
-- rpc/src/io.rs: reading and writing framed messages on a byte stream. A stream is the list of the
-- answers that its next polls give: a chunk of bytes (an empty one is the end of the stream), or a
-- transport failure; past the list the stream has ended. A read takes as much of the chunk as its
-- buffer holds, and what is left of the chunk answers the next poll.
pub mod Chunks
pub mod Frame
pub mod RoundTrip
pub mod Cut
pub mod Limits
pub mod Write
use libcfd.Prelude.{
  [], ℕ, zero, suc, ◌+◌, ◌-◌, ◌*◌, ◌/◌, ◌%◌, String, ◌||◌, List, ◌∷◌, ◌++◌, ok, err, ◌>>=◌, ltb,
  ◌==◌, if◌then◌else◌, min, length, take, drop, get_or, Bytes, u32_from_le_bytes,
  saturating_add_u64,
}
use libcfd.Rpc.Error.{RpcError, eof, protocol, io, RpcResult, text, format}

pub data Poll : Type 0 where
  chunk : Bytes → Poll
  failed : String → Poll

abbrev pub Stream : Type 0
Stream = List Poll

-- `read_exact`: `count` is what is left of the buffer. The result has the bytes and the stream.
unfoldable pub read_exact : ℕ → Stream → RpcResult (Bytes × Stream)
read_exact zero s = ok ([], s)
read_exact (suc k) [] = err eof
read_exact (suc k) (failed e ∷ s) = err (io e)
read_exact (suc k) (chunk c ∷ s) =
    let n = min (length c) (suc k) in
    let rest = read_exact (suc k - n) s in
    if n == 0
    then err eof
    else if ltb n (length c)
    then ok (take n c, chunk (drop n c) ∷ s)
    else rest >>= λ r. ok (c ++ r.0, r.1)

abbrev pub maximum_total_words : ℕ
maximum_total_words = 8 * 1024 * 1024

-- What `capnp::message::Reader` is built from: the segment lengths in words, and the words' bytes.
pub record Segments : Type 0 where
  pub lengths : List ℕ
  pub words : Bytes

abbrev pub word_at : Bytes → ℕ → ℕ
word_at bytes i =
    u32_from_le_bytes (get_or bytes i 0) (get_or bytes (i + 1) 0) (get_or bytes (i + 2) 0)
      (get_or bytes (i + 3) 0)

-- One addition to `total_words` with its limit.
unfoldable pub add_words : ℕ → ℕ → RpcResult ℕ
add_words total_words length =
    let total = saturating_add_u64 total_words length in
    if ltb maximum_total_words total
    then err (protocol (format "message too large" (total ∷ maximum_total_words ∷ [])))
    else ok total

-- `for i in 1..segment_count`, with the bytes of the size table from entry `i` on.
unfoldable pub read_sizes : ℕ → Bytes → ℕ → RpcResult (List ℕ × ℕ)
read_sizes zero sizes total_words = ok ([], total_words)
read_sizes (suc n) sizes total_words = add_words total_words (word_at sizes 0) >>= λ total.
    read_sizes n (drop 4 sizes) total >>= λ r. ok (word_at sizes 0 ∷ r.0, r.1)

-- `(4 + 4 * segment_count + 7) & !7`.
abbrev pub header_size : ℕ → ℕ
header_size segment_count = (4 + 4 * segment_count + 7) / 8 * 8

-- The size table behind the first entry; it is read only if there is more than one segment.
unfoldable pub read_table : ℕ → ℕ → Stream → RpcResult ((List ℕ × ℕ) × Stream)
read_table segment_count first s =
    if ltb 1 segment_count
    then (read_exact (header_size segment_count - 8) s >>= λ t.
        read_sizes (segment_count - 1) t.0 first >>= λ sizes. ok (sizes, t.1))
    else ok (([], first), s)

unfoldable pub read_message : Stream → RpcResult (Segments × Stream)
read_message s = read_exact 8 s >>= λ header.
    let segment_count = (word_at header.0 0 + 1) % 4_294_967_296 in
    if segment_count == 0 || ltb 512 segment_count
    then err (protocol (format "invalid segment count" (segment_count ∷ [])))
    else (add_words 0 (word_at header.0 4) >>= λ first.
        read_table segment_count first header.1 >>= λ table.
        read_exact (table.0.1 * 8) table.1 >>= λ words.
        ok (record { lengths = word_at header.0 4 ∷ table.0.0; words = words.0 }, words.1))

-- One poll of a writer: it takes so many bytes (at most what it is offered), or fails.
pub data WritePoll : Type 0 where
  wrote : ℕ → WritePoll
  refused : String → WritePoll

-- `write_all`: the result has what the polls took, in order, and the polls left. A list of polls
-- that runs out is a write that is still pending.
pub data Written : Type 0 where
  done : Bytes → List WritePoll → Written
  failed_after : Bytes → RpcError → Written
  pending : Bytes → Written

abbrev pub prefixed : Bytes → Written → Written
prefixed b (done w p) = done (b ++ w) p
prefixed b (failed_after w e) = failed_after (b ++ w) e
prefixed b (pending w) = pending (b ++ w)

unfoldable pub write_all : Bytes → List WritePoll → Written
write_all [] polls = done [] polls
write_all (b ∷ bs) [] = pending []
write_all (b ∷ bs) (refused e ∷ polls) = failed_after [] (io e)
write_all (b ∷ bs) (wrote k ∷ polls) =
    let n = min k (length (b ∷ bs)) in
    let rest = write_all (drop n (b ∷ bs)) polls in
    if n == 0
    then failed_after [] (protocol (text "write returned zero bytes"))
    else prefixed (take n (b ∷ bs)) rest
