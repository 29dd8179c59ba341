-- ===== src/Rpc/Io/Cut.antt =====
-- A framed message that is cut short is refused.
use libcfd.Prelude.{
  [], ℕ, zero, suc, true, ◌+◌, ◌-◌, ◌*◌, ◌≡◌, ◌≤◌, ◌<◌, refl, sym, ap, ◌∙◌, false, List, ◌∷◌, ◌++◌,
  ◌⊎◌, inl, inr, ok, err, min, ltb, ◌==◌, length, arith, Bytes, append_split, length-append, dec_lt,
  u32_to_le_bytes,
}
use libcfd.Rpc.Error.{eof}
use libcfd.Rpc.Io.{
  chunk, failed, Stream, read_exact, read_table, read_message, header_size, maximum_total_words,
}
use libcfd.Rpc.Io.Chunks.{content, IsSmooth, read_exact-content}
use libcfd.Rpc.Io.Frame.{sum, table, padding, frame, IsFrameable, length-table-padding}
use libcfd.Rpc.Io.RoundTrip.{read_table-table, read_message_opened}

read_exact-short :
    (k : ℕ) (s : Stream) → IsSmooth s → length (content s) < k → read_exact k s ≡ err eof
unfolding read_exact
read_exact-short zero s v h = absurd (omega arith)
read_exact-short (suc k) [] v h = refl
read_exact-short (suc k) (failed e ∷ s) v h = absurd v
read_exact-short (suc k) (chunk c ∷ s) (n, v) h =
    let sum = length-append c (content s) in
    let m : min (length c) (suc k) ≡ length c = omega arith in
    let some : (length c == 0) ≡ false = ground arith in
    let whole : ltb (length c) (length c) ≡ false = ground arith in
    rw (m, some, whole, read_exact-short (suc k - length c) s v (omega arith))

-- A size table that is not empty is that of more than one segment.
sizes-more :
    (k : ℕ) (others : List ℕ)
    → k < length (table others ++ padding (suc (length others)))
    → ltb 1 (suc (length others)) ≡ true
sizes-more k [] h = absurd (omega (arith, length-table-padding []))
sizes-more k (n ∷ ns) h = ground arith

abbrev sizes : List ℕ → Bytes
sizes others = table others ++ padding (suc (length others))

module _ (first : ℕ) (others : List ℕ) (words missing : Bytes) where
  -- The size table of a message that is cut: it is cut itself, or the words are.
  read_table-cut :
      (s : Stream)
      → IsSmooth s
      → content s ++ missing ≡ sizes others ++ words
      → first + sum others ≤ maximum_total_words
      → (read_table (suc (length others)) first s ≡ err eof)
        ⊎ ((s' : Stream) × (read_table (suc (length others)) first s
              ≡ ok ((others, first + sum others), s'))
            × IsSmooth s'
            × (content s' ++ missing ≡ words))
  unfolding read_table
  read_table-cut s v e h = elim (dec_lt (length (content s)) (length (sizes others))) [
    | yes p ↦
        let size = length-table-padding others in
        let more : ltb 1 (suc (length others)) ≡ true = sizes-more _ others p in
        inl (rw (more, read_exact-short (header_size (suc (length others)) - 8) s v (omega arith)))
    | no p ↦
        let (rest, front, back) =
          append_split (content s) missing (sizes others) words e (omega arith) in
        let (s', r, w, left) = read_table-table first others rest s v front h in
        inr (s', r, w, ap (λ b. b ++ missing) left ∙ sym back)
  ]

read_message-header : (s : Stream) → read_exact 8 s ≡ err eof → read_message s ≡ err eof
unfolding read_message
read_message-header s h = rw h

-- A message of one to 512 segments within the limit on words that ends before its last byte, wherever
-- and through any chunks of the transport, is refused with `Eof`.
pub read_message-cut :
    (first : ℕ) (others : List ℕ) (words missing : Bytes) (s : Stream)
    → IsFrameable first others words
    → IsSmooth s
    → content s ++ missing ≡ frame first others words
    → 0 < length missing
    → read_message s ≡ err eof
unfolding frame
read_message-cut first others words missing s f v e h =
    let header = u32_to_le_bytes (length others) ++ u32_to_le_bytes first in
    elim (dec_lt (length (content s)) 8) [
      | yes p ↦ read_message-header s (read_exact-short 8 s v p)
      | no p ↦
          let (rest, front, back) =
            append_split (content s) missing header (sizes others ++ words) e (omega arith) in
          let (s₁, r₁, v₁, e₁) = read_exact-content header rest s v front in
          elim (read_table-cut first others words missing s₁ v₁
            (ap (λ b. b ++ missing) e₁ ∙ sym back) f.small) [
              | inl r₂ ↦
                  read_message_opened first others s s₁ f.few (omega (arith, f.small)) r₁ ∙ rw r₂
              | inr (s₂, r₂, v₂, e₂) ↦
                  let size = ap length e₂ in
                  let all = length-append (content s₂) missing in
                  let short =
                    read_exact-short ((first + sum others) * 8) s₂ v₂ (omega (arith, f.whole)) in
                  read_message_opened first others s s₁ f.few (omega (arith, f.small)) r₁
                  ∙ rw (r₂, short)
            ]
    ]
