-- ===== src/Rpc/Io/Frame.antt =====
-- The framing that rpc/src/io.rs documents, written as a printer: the number of segments less one,
-- the length of each segment in words, zeros up to a multiple of eight bytes, and the words.
use libcfd.Prelude.{
  [], ℕ, suc, ◌+◌, ◌-◌, ◌*◌, ◌≡◌, ◌≤◌, ◌<◌, List, ◌∷◌, ◌++◌, length, replicate, arith, Bytes,
  u32_to_le_bytes, length-append, length-replicate,
}
use libcfd.Rpc.Io.{maximum_total_words, header_size}

abbrev pub sum : List ℕ → ℕ
sum [] = 0
sum (n ∷ ns) = n + sum ns

abbrev pub table : List ℕ → Bytes
table [] = []
table (n ∷ ns) = u32_to_le_bytes n ++ table ns

abbrev pub padding : ℕ → Bytes
padding segment_count = replicate (header_size segment_count - (4 + 4 * segment_count)) 0

-- A message of the segments `first ∷ others`.
unfoldable pub frame : ℕ → List ℕ → Bytes → Bytes
frame first others words =
    u32_to_le_bytes (length others)
    ++ (u32_to_le_bytes first ++ ((table others ++ padding (suc (length others))) ++ words))

-- What a writer of messages keeps to: at most 512 segments, the limit on the words, whole words.
pub record IsFrameable (first : ℕ) (others : List ℕ) (words : Bytes) : Type 0 where
  pub few : length others < 512
  pub small : first + sum others ≤ maximum_total_words
  pub whole : length words ≡ (first + sum others) * 8

length-table : (ns : List ℕ) → length (table ns) ≡ 4 * length ns
length-table [] = omega arith
length-table (n ∷ ns) = omega (arith, length-table ns)

-- The size table and its zeros fill the header.
pub length-table-padding :
    (ns : List ℕ)
    → length (table ns ++ padding (suc (length ns))) ≡ header_size (suc (length ns)) - 8
length-table-padding ns = omega (
  arith,
  length-append (table ns) (padding (suc (length ns))),
  length-table ns,
  length-replicate {A = ℕ} (header_size (suc (length ns)) - (4 + 4 * suc (length ns))) 0,
)
