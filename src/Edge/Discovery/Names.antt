-- ===== src/Edge/Discovery/Names.antt =====
-- `decode_name` reads back what `encode_name` writes.
use libcfd.Prelude.{
  [], ℕ, zero, suc, ◌+◌, ◌≡◌, ◌≤◌, ◌<◌, refl, sym, ap, ◌∙◌, true, false, List, ◌∷◌, ◌++◌, some, inl,
  inr, ok, ◌==◌, length, take, drop, get_or, arith, Bytes, append_assoc, append-nil, length-append,
  Bool-cases, subst,
}
use libcfd.Prelude.{take-append}
use libcfd.Edge.Discovery.{
  NameState, next, done, decode_label, decode_step, after_step, decode_loop, decode_name, split,
  encode_labels, encode_name, push_label,
}

-- The labels on the wire, and the name that they spell behind a first label.
wire : List Bytes → Bytes
wire [] = []
wire (label ∷ labels) = length label ∷ (label ++ wire labels)

dotted : List Bytes → Bytes
dotted [] = []
dotted (label ∷ labels) = 46 ∷ (label ++ dotted labels)

-- The lengths that `encode_name` accepts.
AreLabels : List Bytes → Type 0
AreLabels [] = Unit
AreLabels (label ∷ labels) = (0 < length label) × (length label ≤ 63) × AreLabels labels

-- The labels are text, which the lossy conversion keeps.
unfoldable pub AreKept : (Bytes → Bytes) → List Bytes → Type 0
AreKept lossy [] = Unit
AreKept lossy (label ∷ labels) = (lossy label ≡ label) × AreKept lossy labels

encode_labels-wire :
    (out : Bytes) (labels : List Bytes) {r : Bytes}
    → encode_labels out labels ≡ ok r
    → (r ≡ out ++ wire labels) × AreLabels labels
unfolding encode_labels wire AreLabels
encode_labels-wire out [] h = (cc (h, append-nil out), tt)
encode_labels-wire out (label ∷ labels) {r} h =
    let (n, m, k) = accepted in
    let (e, a) = encode_labels-wire (out ++ length label ∷ label) labels k in
    (e ∙ append_assoc out (length label ∷ label) (wire labels), (n, m, a))
  where
    accepted :
        (0 < length label)
        × (length label ≤ 63)
        × (encode_labels (out ++ length label ∷ label) labels ≡ ok r)
    accepted = ground arith

is-dot : (b : ℕ) → (b == 46) ≡ true → b ≡ 46
is-dot b h = ground arith

split-dotted :
    (name : Bytes)
    → (l : Bytes) × (ls : List Bytes) × (split name ≡ l ∷ ls) × (name ≡ l ++ dotted ls)
unfolding split dotted
split-dotted [] = ([], [], refl, refl)
split-dotted (b ∷ bs) =
    let (l, ls, e, d) = split-dotted bs in
    elim (Bool-cases (b == 46)) [
      | inl h ↦ ([], l ∷ ls, rw (h, e), cc (d, is-dot b h))
      | inr h ↦ (b ∷ l, ls, rw (h, e), ap (λ x. b ∷ x) d)
    ]

-- What the loop makes of the labels behind `acc`.
joined : (Bytes → Bytes) → Bytes → List Bytes → Bytes
joined lossy acc [] = acc
joined lossy acc (l ∷ ls) = joined lossy (push_label lossy acc l) ls

push_label-cons :
    (lossy : Bytes → Bytes) (a : ℕ) (acc l : Bytes)
    → lossy l ≡ l
    → push_label lossy (a ∷ acc) l ≡ a ∷ ((acc ++ 46 ∷ []) ++ l)
unfolding push_label
push_label-cons lossy a acc l e = ground (arith, e)

joined-dotted :
    (lossy : Bytes → Bytes) (a : ℕ) (acc : Bytes) (ls : List Bytes)
    → AreKept lossy ls
    → joined lossy (a ∷ acc) ls ≡ a ∷ (acc ++ dotted ls)
unfolding joined dotted AreKept
joined-dotted lossy a acc [] k = rw (append-nil acc)
joined-dotted lossy a acc (l ∷ ls) (e, k) =
    ap (λ x. joined lossy x ls) (push_label-cons lossy a acc l e)
    ∙ joined-dotted lossy a ((acc ++ 46 ∷ []) ++ l) ls k
    ∙ ap (λ x. a ∷ x)
        (append_assoc (acc ++ 46 ∷ []) l (dotted ls) ∙ append_assoc acc (46 ∷ []) (l ++ dotted ls))

get_or-append : (pre : Bytes) (x : ℕ) (post : Bytes) → get_or (pre ++ x ∷ post) (length pre) 0 ≡ x
get_or-append [] x post = refl
get_or-append (a ∷ pre) x post = get_or-append pre x post

drop-suc : (pre : Bytes) (x : ℕ) (post : Bytes) → drop (suc (length pre)) (pre ++ x ∷ post) ≡ post
drop-suc [] x post = refl
drop-suc (a ∷ pre) x post = drop-suc pre x post

-- Where the loop stands: `bytes` splits at `p` into what is read and a byte before the rest.
module _ (bytes pre : Bytes) (x : ℕ) (post : Bytes) (p : ℕ) (e : bytes ≡ pre ++ x ∷ post)
    (q : p ≡ length pre) where
  at_byte : get_or bytes p 0 ≡ x
  at_byte = rw (e, q) (get_or-append pre x post)

  behind_byte : drop (p + 1) bytes ≡ post
  behind_byte =
      ap (λ n. drop n bytes) (next_position q)
      ∙ ap (drop (suc (length pre))) e
      ∙ drop-suc pre x post
    where
      next_position : p ≡ length pre → p + 1 ≡ suc (length pre)
      next_position h = omega arith

  length_bytes : length bytes ≡ p + 1 + length post
  length_bytes = let h = ap length e in omega (arith, length-append pre (x ∷ post))

-- A turn of the loop at a label.
decode_step-label :
    (lossy : Bytes → Bytes) (bytes label : Bytes) (s : NameState)
    → get_or bytes s.p 0 ≡ length label
    → take (length label) (drop (s.p + 1) bytes) ≡ label
    → s.p + 1 + length label ≤ length bytes
    → 0 < length label
    → length label ≤ 63
    → decode_step lossy bytes s
      ≡ next (record s { p = s.p + 1 + length label; out = push_label lossy s.out label })
unfolding decode_step decode_label
decode_step-label lossy bytes label s e t b n m = ground (arith, e, t)

decode_step-end :
    (lossy : Bytes → Bytes) (bytes : Bytes) (s : NameState)
    → get_or bytes s.p 0 ≡ 0
    → s.p < length bytes
    → s.jumped ≡ false
    → decode_step lossy bytes s ≡ done (ok (s.p + 1, s.out))
unfolding decode_step decode_label
decode_step-end lossy bytes s e b j = ground (arith, e)

decode_loop-wire :
    (lossy : Bytes → Bytes) (labels : List Bytes) (fuel : ℕ) (bytes pre post : Bytes)
    (s : NameState)
    → bytes ≡ pre ++ (wire labels ++ 0 ∷ post)
    → s.p ≡ length pre
    → s.jumped ≡ false
    → AreLabels labels
    → length labels < fuel
    → decode_loop lossy fuel bytes s
      ≡ some (ok (length pre + length (wire labels) + 1, joined lossy s.out labels))
unfolding decode_loop after_step wire AreLabels joined
decode_loop-wire lossy labels zero bytes pre post s e p j a f = absurd (omega arith)
decode_loop-wire lossy [] (suc fuel) bytes pre post s e p j a f =
    let b = at_byte bytes pre 0 post s.p e p in
    let l = length_bytes bytes pre 0 post s.p e p in
    ap (λ x. after_step x (decode_loop lossy fuel bytes))
      (decode_step-end lossy bytes s b (omega arith) j)
    ∙ ap (λ q. some (ok (q, s.out))) (ended p)
  where
    ended : s.p ≡ length pre → s.p + 1 ≡ length pre + 0 + 1
    ended h = omega arith
decode_loop-wire lossy (label ∷ labels) (suc fuel) bytes pre post s e p j (n, m, a) f =
    let rest = label ++ (wire labels ++ 0 ∷ post) in
    let e' = e ∙ ap (λ x. pre ++ length label ∷ x) (append_assoc label (wire labels) (0 ∷ post)) in
    let b = at_byte bytes pre (length label) rest s.p e' p in
    let t =
      ap (take (length label)) (behind_byte bytes pre (length label) rest s.p e' p)
      ∙ take-append label (wire labels ++ 0 ∷ post) in
    let l = length_bytes bytes pre (length label) rest s.p e' p in
    ap (λ x. after_step x (decode_loop lossy fuel bytes))
      (decode_step-label lossy bytes label s b t
        (omega (arith, length-append label (wire labels ++ 0 ∷ post))) n m)
    ∙ decode_loop-wire lossy labels fuel bytes (pre ++ length label ∷ label) post _
        (e' ∙ sym (append_assoc pre (length label ∷ label) (wire labels ++ 0 ∷ post)))
        (omega (arith, length-append pre (length label ∷ label))) j a (omega arith)
    ∙ ap (λ q. some (ok (q, joined lossy (push_label lossy s.out label) labels)))
        (omega (arith, length-append pre (length label ∷ label), length-append label (wire labels)))

joined-split :
    (lossy : Bytes → Bytes) (l : Bytes) (ls : List Bytes)
    → 0 < length l
    → AreKept lossy (l ∷ ls)
    → joined lossy [] (l ∷ ls) ≡ l ++ dotted ls
unfolding joined AreKept push_label
joined-split lossy [] ls n k = absurd (omega arith)
joined-split lossy (a ∷ l) ls n (e, k) =
    ap (λ x. joined lossy x ls) e ∙ joined-dotted lossy a l ls k

joined-name :
    (lossy : Bytes → Bytes) (name : Bytes) (l : Bytes) (ls : List Bytes)
    → split name ≡ l ∷ ls
    → name ≡ l ++ dotted ls
    → AreLabels (split name)
    → AreKept lossy (split name)
    → joined lossy [] (split name) ≡ name
unfolding AreLabels
joined-name lossy name l ls e d a k =
    ap (joined lossy []) e
    ∙ joined-split lossy l ls (first (subst AreLabels e a)) (subst (AreKept lossy) e k)
    ∙ sym d
  where
    first : AreLabels (l ∷ ls) → 0 < length l
    first (n, m, r) = n

-- A name that `encode_name` accepts and whose labels the lossy conversion keeps is read back by
-- `decode_name` from any place of a message, on fuel above its number of labels, and the position
-- ends behind its closing zero.
pub decode_name-encode_name :
    (from_utf8_lossy : Bytes → Bytes) (fuel : ℕ) (name pre post : Bytes) {encoded : Bytes}
    → encode_name [] name ≡ ok encoded
    → AreKept from_utf8_lossy (split name)
    → length (split name) < fuel
    → decode_name from_utf8_lossy fuel (pre ++ (encoded ++ 0 ∷ post)) (length pre) []
      ≡ some (ok (length pre + length encoded + 1, name))
unfolding decode_name encode_name
decode_name-encode_name lossy fuel name pre post {encoded} h k f =
    let (e, a) = encode_labels-wire [] (split name) h in
    let (l, ls, s, d) = split-dotted name in
    decode_loop-wire lossy (split name) fuel _ pre post _ (ap (λ w. pre ++ (w ++ 0 ∷ post)) e) refl
      refl a f
    ∙ cc (e, joined-name lossy name l ls s d a k)
