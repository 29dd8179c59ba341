-- ===== src/Rpc/Io/RoundTrip.antt =====
-- A framed message is read back, through any chunks that the transport hands it out in.
use libcfd.Prelude.{
  ◌>>=◌, ◌==◌, ◌||◌, ltb, false, [], ℕ, suc, ◌+◌, ◌-◌, ◌*◌, ◌%◌, ◌≡◌, ◌≤◌, ◌<◌, sym, ◌∙◌, List, ◌∷◌,
  ◌++◌, ok, length, arith, Bytes, append_assoc, u32_le_round_trip, u32_to_le_bytes,
}
use libcfd.Rpc.Io.{
  Stream, read_exact, add_words, read_sizes, read_table, read_message, header_size,
  maximum_total_words,
}
use libcfd.Rpc.Io.Chunks.{content, IsSmooth, read_exact-content, read_exact_sized}
use libcfd.Rpc.Io.Frame.{sum, table, padding, frame, IsFrameable, length-table-padding}

add_words_within :
    (total n : ℕ) → total + n ≤ maximum_total_words → add_words total n ≡ ok (total + n)
unfolding add_words
add_words_within total n h = ground arith

add_words_first : (n : ℕ) → n ≤ maximum_total_words → add_words 0 n ≡ ok n
unfolding add_words
add_words_first n h = ground arith

read_sizes-table :
    (ns : List ℕ) (pad : Bytes) (total : ℕ)
    → total + sum ns ≤ maximum_total_words
    → read_sizes (length ns) (table ns ++ pad) total ≡ ok (ns, total + sum ns)
unfolding read_sizes
read_sizes-table [] pad total h = ground arith
read_sizes-table (n ∷ ns) pad total h =
    rw (u32_le_round_trip n (omega arith), add_words_within total n (omega arith))
      (rw (read_sizes-table ns pad (total + n) (omega arith)) (ground arith))

pub read_table-table :
    (first : ℕ) (others : List ℕ) (rest : Bytes) (s : Stream)
    → IsSmooth s
    → content s ≡ (table others ++ padding (suc (length others))) ++ rest
    → first + sum others ≤ maximum_total_words
    → (s' : Stream) × (read_table (suc (length others)) first s
        ≡ ok ((others, first + sum others), s'))
      × IsSmooth s'
      × (content s' ≡ rest)
unfolding read_table
read_table-table first [] rest s v e h = (s, ground arith, v, e)
read_table-table first (n ∷ ns) rest s v e h =
    let all = table (n ∷ ns) ++ padding (suc (length (n ∷ ns))) in
    let (s', r, w, left) =
      read_exact_sized (header_size (suc (length (n ∷ ns))) - 8) all rest s
        (sym (length-table-padding (n ∷ ns))) v e in
    let minus : suc (length (n ∷ ns)) - 1 ≡ length (n ∷ ns) = omega arith in
    let sizes = read_sizes-table (n ∷ ns) (padding (suc (length (n ∷ ns)))) first h in
    (s', rw (r, minus, sizes) (ground arith), w, left)

-- `read_message` behind its first eight bytes.
pub read_message_opened :
    (first : ℕ) (others : List ℕ) (s s₁ : Stream)
    → length others < 512
    → first ≤ maximum_total_words
    → read_exact 8 s ≡ ok (u32_to_le_bytes (length others) ++ u32_to_le_bytes first, s₁)
    → read_message s ≡ (
        read_table (suc (length others)) first s₁ >>= λ table.
        read_exact (table.0.1 * 8) table.1 >>= λ words.
        ok (record { lengths = first ∷ table.0.0; words = words.0 }, words.1))
unfolding read_message
read_message_opened first others s s₁ few small r =
    let count : (length others + 1) % 4_294_967_296 ≡ suc (length others) = omega arith in
    let one : (suc (length others) == 0 || ltb 512 (suc (length others))) ≡ false = ground arith in
    rw (
      r,
      u32_le_round_trip (length others) (omega arith),
      u32_le_round_trip first (omega arith),
      count,
      one,
      add_words_first first small,
    )

pub read_message-frame :
    (first : ℕ) (others : List ℕ) (words rest : Bytes) (s : Stream)
    → IsFrameable first others words
    → IsSmooth s
    → content s ≡ frame first others words ++ rest
    → (s' : Stream) × (read_message s ≡ ok (record { lengths = first ∷ others; words = words }, s'))
      × IsSmooth s'
      × (content s' ≡ rest)
unfolding read_message frame
read_message-frame first others words rest s f v e =
    let header = u32_to_le_bytes (length others) ++ u32_to_le_bytes first in
    let body = (table others ++ padding (suc (length others))) ++ (words ++ rest) in
    let (s₁, r₁, v₁, e₁) = read_exact-content header body s v (e ∙ simp append_assoc) in
    let (s₂, r₂, v₂, e₂) = read_table-table first others (words ++ rest) s₁ v₁ e₁ f.small in
    let (s₃, r₃, v₃, e₃) =
      read_exact_sized ((first + sum others) * 8) words rest s₂ (sym f.whole) v₂ e₂ in
    let opened = read_message_opened first others s s₁ f.few (omega (arith, f.small)) r₁ in
    (s₃, opened ∙ rw (r₂, r₃), v₃, e₃)
