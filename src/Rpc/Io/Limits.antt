-- ===== src/Rpc/Io/Limits.antt =====
-- What `read_message` accepts, from any stream at all, is within the limits that it checks.
use libcfd.Prelude.{
  [], ℕ, zero, suc, ◌+◌, ◌-◌, ◌*◌, ◌%◌, ◌≡◌, ◌≤◌, ◌<◌, refl, ◌||◌, List, ◌∷◌, ◌++◌, inl, inr, ok,
  err, ◌>>=◌, bind-eq-ok, ltb, ◌==◌, min, length, drop, arith, Bytes, length-append, length-take,
  Bool-cases,
}
use libcfd.Rpc.Error.{RpcResult}
use libcfd.Rpc.Io.{
  chunk, failed, Stream, Segments, read_exact, add_words, read_sizes, read_table, read_message,
  word_at, maximum_total_words, header_size,
}
use libcfd.Rpc.Io.Frame.{sum}

append_chunk-length :
    (c : Bytes) (j : ℕ) (m : RpcResult (Bytes × Stream)) {r : Bytes × Stream}
    → ((q : Bytes × Stream) → m ≡ ok q → length q.0 ≡ j)
    → (m >>= λ q. ok (c ++ q.0, q.1)) ≡ ok r
    → length r.0 ≡ length c + j
append_chunk-length c j (ok q) h e = ground (arith, h q refl, length-append c q.0)
append_chunk-length c j (err x) h e = cc

read_exact-length :
    (s : Stream) (k : ℕ) {r : Bytes × Stream} → read_exact k s ≡ ok r → length r.0 ≡ k
unfolding read_exact
read_exact-length s zero e = ground arith
read_exact-length [] (suc k) e = cc
read_exact-length (failed f ∷ s) (suc k) e = cc
read_exact-length (chunk c ∷ s) (suc k) {r} e = ground (
  arith,
  length-take (min (length c) (suc k)) c,
  append_chunk-length c (suc k - min (length c) (suc k))
      (read_exact (suc k - min (length c) (suc k)) s) {r = r} (λ q. read_exact-length s _),
)

add_words-ok :
    (total n : ℕ) {r : ℕ}
    → total ≤ maximum_total_words
    → add_words total n ≡ ok r
    → (r ≡ total + n) × (r ≤ maximum_total_words)
unfolding add_words
add_words-ok total n t e = ground arith

read_sizes-ok :
    (n : ℕ) (sizes : Bytes) (total : ℕ) {r : List ℕ × ℕ}
    → total ≤ maximum_total_words
    → read_sizes n sizes total ≡ ok r
    → (length r.0 ≡ n) × (r.1 ≡ total + sum r.0) × (r.1 ≤ maximum_total_words)
unfolding read_sizes
read_sizes-ok zero sizes total t e = ground arith
read_sizes-ok (suc n) sizes total t e =
    let (next, a, later) = bind-eq-ok (add_words total (word_at sizes 0)) _ e in
    let (sub, b, last) = bind-eq-ok (read_sizes n (drop 4 sizes) next) _ later in
    let (l, t', m) =
      read_sizes-ok n (drop 4 sizes) next (add_words-ok total (word_at sizes 0) t a).1 b in
    ground (arith, add_words-ok total (word_at sizes 0) t a, l, t', m)

read_table-ok :
    (count first : ℕ) (s : Stream) {r : (List ℕ × ℕ) × Stream}
    → 0 < count
    → first ≤ maximum_total_words
    → read_table count first s ≡ ok r
    → (length r.0.0 + 1 ≡ count) × (r.0.1 ≡ first + sum r.0.0) × (r.0.1 ≤ maximum_total_words)
unfolding read_table
read_table-ok count first s {r} c f e = elim (Bool-cases (ltb 1 count)) [
  | inl many ↦
      let (t, a, later) = bind-eq-ok (read_exact (header_size count - 8) s) _ (rw many at e) in
      let (sizes, b, last) = bind-eq-ok (read_sizes (count - 1) t.0 first) _ later in
      let (l, total, m) = read_sizes-ok (count - 1) t.0 first f b in ground (arith, l, total, m)
  | inr single ↦ ground (arith, rw single at e)
]

-- A message that `read_message` returns has between one and 512 segments, at most the limit of
-- words in all, and exactly the bytes of those words.
pub read_message-bounds :
    (s : Stream) {r : Segments × Stream}
    → read_message s ≡ ok r
    → (0 < length r.0.lengths)
      × (length r.0.lengths ≤ 512)
      × (sum r.0.lengths ≤ maximum_total_words)
      × (length r.0.words ≡ sum r.0.lengths * 8)
unfolding read_message
read_message-bounds s {r} e =
    let (header, h, e₁) = bind-eq-ok (read_exact 8 s) _ e in
    let count = (word_at header.0 0 + 1) % 4_294_967_296 in
    elim (Bool-cases (count == 0 || ltb 512 count)) [
      | inl bad ↦ absurd (cc (rw bad at e₁))
      | inr good ↦
          let (first, a, e₂) = bind-eq-ok (add_words 0 (word_at header.0 4)) _ (rw good at e₁) in
          let f = add_words-ok 0 (word_at header.0 4) (omega arith) a in
          let (t, b, e₃) = bind-eq-ok (read_table count first header.1) _ e₂ in
          let (l, total, m) = read_table-ok count first header.1 (ground arith) f.1 b in
          let (words, c, e₄) = bind-eq-ok (read_exact (t.0.1 * 8) t.1) _ e₃ in
          ground (arith, l, total, m, read_exact-length t.1 (t.0.1 * 8) c)
    ]
