-- ===== src/Rpc/Io/Chunks.antt =====
-- The chunks in which a transport hands out its bytes do not matter to `read_exact`.
use libcfd.Prelude.{
  [], ℕ, suc, ◌≡◌, ◌<◌, ◌-◌, refl, sym, ap, ◌∷◌, ◌++◌, ok, min, length, arith, Bytes, length-append,
  take-append, drop-append, append_split, dec_lt,
}
use libcfd.Rpc.Io.{chunk, failed, Stream, read_exact}

-- The bytes that a stream still delivers before it ends or fails.
abbrev pub content : Stream → Bytes
content [] = []
content (chunk c ∷ s) = c ++ content s
content (failed e ∷ s) = []

-- No failure, and no empty chunk: a transport that keeps delivering.
abbrev pub IsSmooth : Stream → Type 0
IsSmooth [] = Unit
IsSmooth (chunk c ∷ s) = (0 < length c) × IsSmooth s
IsSmooth (failed e ∷ s) = ⊥

-- The buffer fills inside a chunk: the rest of the chunk stays for the next read.
read_exact-shorter :
    (x : ℕ) (xs ds c : Bytes) (s : Stream)
    → c ≡ (x ∷ xs) ++ ds
    → 0 < length ds
    → read_exact (suc (length xs)) (chunk c ∷ s) ≡ ok (x ∷ xs, chunk ds ∷ s)
unfolding read_exact
read_exact-shorter x xs ds c s e h =
    let m : min (suc (length (xs ++ ds))) (suc (length xs)) ≡ suc (length xs) =
      omega (arith, length-append xs ds) in
    rw e (rw m (ground (arith, length-append xs ds, take-append xs ds, drop-append xs ds)))

-- The chunk is used up: the read goes on with what is left of the buffer.
read_exact-longer :
    (x : ℕ) (xs ds a : Bytes) (s s' : Stream)
    → a ≡ x ∷ (xs ++ ds)
    → read_exact (length ds) s ≡ ok (ds, s')
    → read_exact (length a) (chunk (x ∷ xs) ∷ s) ≡ ok (a, s')
unfolding read_exact
read_exact-longer x xs ds a s s' e h =
    let m : min (suc (length xs)) (suc (length (xs ++ ds))) ≡ suc (length xs) =
      omega (arith, length-append xs ds) in
    let d : suc (length (xs ++ ds)) - suc (length xs) ≡ length ds =
      omega (arith, length-append xs ds) in
    rw e (rw (m, d, h) (ground arith))

-- The read fills its buffer with the next bytes, whatever the chunks they come in, and leaves the
-- others to later reads.
pub read_exact-content :
    (a b : Bytes) (s : Stream)
    → IsSmooth s
    → content s ≡ a ++ b
    → (s' : Stream) × (read_exact (length a) s ≡ ok (a, s')) × IsSmooth s' × (content s' ≡ b)
read_exact-content [] b s v e = (s, unfold read_exact in refl, v, e)
read_exact-content (x ∷ a) b [] v e = absurd (cc)
read_exact-content (x ∷ a) b (failed f ∷ s) v e = absurd v
read_exact-content (x ∷ a) b (chunk [] ∷ s) v e = absurd (omega arith)
read_exact-content (x ∷ a) b (chunk (y ∷ c) ∷ s) v e = elim (dec_lt (length a) (length c)) [
  | yes p ↦
      let (ds, front, back) = append_split (y ∷ c) (content s) (x ∷ a) b e (omega arith) in
      let l : 0 < length ds = omega (arith, ap length front, length-append (x ∷ a) ds) in
      (chunk ds ∷ s, read_exact-shorter x a ds (y ∷ c) s front l, (l, v.1), sym back)
  | no p ↦
      let (ds, front, back) = append_split (x ∷ a) b (y ∷ c) (content s) (sym e) (omega arith) in
      let (s', r, w, left) = read_exact-content ds b s v.1 back in
      (s', read_exact-longer y c ds (x ∷ a) s s' front r, w, left)
]

-- The same where the buffer's size is known otherwise.
pub read_exact_sized :
    (k : ℕ) (a b : Bytes) (s : Stream)
    → k ≡ length a
    → IsSmooth s
    → content s ≡ a ++ b
    → (s' : Stream) × (read_exact k s ≡ ok (a, s')) × IsSmooth s' × (content s' ≡ b)
read_exact_sized k a b s l v e = rw l (read_exact-content a b s v e)
