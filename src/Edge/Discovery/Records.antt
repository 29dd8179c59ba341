-- ===== src/Edge/Discovery/Records.antt =====
-- `parse_records` reads back the SRV records of a response.
use libcfd.Prelude.{
  [], ℕ, zero, suc, ◌+◌, ◌/◌, ◌%◌, ◌≡◌, ◌≤◌, ◌<◌, refl, sym, ap, ◌∙◌, ◌==◌, true, false, List, ◌∷◌,
  ◌++◌, some, ok, length, leb, ltb, get_or, arith, Bytes, append_assoc, length-append, map,
  u16_from_be_bytes,
}
use libcfd.Edge.Discovery.{
  decode_name, split, encode_name, skip_name, skip_loop, u16_at, then_with, parse_target,
  parse_record, parse_records,
}
use libcfd.Edge.Discovery.Names.{AreKept, decode_name-encode_name}

-- A server of the edge: its name, the name as it is encoded, its port, and the numbers of its record.
pub record Target : Type 0 where
  pub host : Bytes
  pub encoded : Bytes
  pub port : ℕ
  pub ttl : ℕ
  pub priority : ℕ
  pub weight : ℕ

-- Its record, whose owner is a pointer to the question.
fixed : Target → Bytes
fixed t =
    let size = length t.encoded + 7 in
    192
    ∷ 12
    ∷ 0
    ∷ 33
    ∷ 0
    ∷ 1
    ∷ 0
    ∷ 0
    ∷ (t.ttl / 256)
    ∷ (t.ttl % 256)
    ∷ (size / 256)
    ∷ (size % 256)
    ∷ (t.priority / 256)
    ∷ (t.priority % 256)
    ∷ (t.weight / 256)
    ∷ (t.weight % 256)
    ∷ (t.port / 256)
    ∷ (t.port % 256)
    ∷ []

pub answers : List Target → Bytes
unfolding fixed
answers [] = []
answers (t ∷ targets) = fixed t ++ (t.encoded ++ 0 ∷ answers targets)

-- The bytes of its record, with the end of its name.
abbrev whole : Target → Bytes
whole t = fixed t ++ (t.encoded ++ 0 ∷ [])

append-whole :
    (pre xs : Bytes) (t : Target)
    → pre ++ (fixed t ++ (t.encoded ++ 0 ∷ xs)) ≡ (pre ++ whole t) ++ xs
append-whole pre xs t =
    ap (λ b. pre ++ (fixed t ++ b)) (sym (append_assoc t.encoded (0 ∷ []) xs))
    ∙ ap (λ b. pre ++ b) (sym (append_assoc (fixed t) (t.encoded ++ 0 ∷ []) xs))
    ∙ sym (append_assoc pre (whole t) xs)

length-whole :
    (pre : Bytes) (t : Target) → length pre + 19 + length t.encoded ≡ length (pre ++ whole t)
unfolding fixed
length-whole pre t = omega (arith, length-append pre (whole t), length-append t.encoded (0 ∷ []))

get_or_at : (pre xs : Bytes) (k p : ℕ) → p ≡ length pre + k → get_or (pre ++ xs) p 0 ≡ get_or xs k 0
get_or_at [] xs k p e = ap (λ n. get_or xs n 0) (omega arith)
get_or_at (x ∷ pre) xs k zero e = absurd (omega arith)
get_or_at (x ∷ pre) xs k (suc p) e = get_or_at pre xs k p (omega arith)

leb-false : (a b : ℕ) → b < a → leb a b ≡ false
leb-false a b h = ground arith

pub ltb-false : (a b : ℕ) → b ≤ a → ltb a b ≡ false
ltb-false a b h = ground arith

le→leb : (a b : ℕ) → a ≤ b → leb a b ≡ true
le→leb a b h = ground arith

u16_at-append :
    (pre xs : Bytes) (k p : ℕ) {n : ℕ}
    → p ≡ length pre + k
    → u16_from_be_bytes (get_or xs k 0) (get_or xs (k + 1) 0) ≡ n
    → u16_at (pre ++ xs) p ≡ n
u16_at-append pre xs k p e h =
    rw (get_or_at pre xs k p e, get_or_at pre xs (k + 1) (p + 1) (omega arith)) h

pub halves : (n : ℕ) → u16_from_be_bytes (n / 256) (n % 256) ≡ n
halves n = omega arith

-- A name that starts with a pointer is skipped in two bytes.
skip_name-pointer :
    (bytes : Bytes) (position : ℕ)
    → position < length bytes
    → get_or bytes position 0 ≡ 192
    → skip_name bytes position ≡ some (ok (position + 2))
unfolding skip_loop
skip_name-pointer bytes position h e = ground (arith, e)

pub equals_itself : (n : ℕ) → (n == n) ≡ true
equals_itself n = ground arith

module _ (lossy : Bytes → Bytes) (fuel : ℕ) where
  unfoldable pub IsTarget : Target → Type 0
  IsTarget t =
      (encode_name [] t.host ≡ ok t.encoded)
      × AreKept lossy (split t.host)
      × (length (split t.host) < fuel)

  unfoldable pub AreTargets : List Target → Type 0
  unfolding IsTarget
  AreTargets [] = Unit
  AreTargets (t ∷ targets) = IsTarget t × AreTargets targets

  -- A record at a position, from what stands there.
  parse_record-at :
      (bytes name : Bytes) (position n port q : ℕ)
      → skip_name bytes position ≡ some (ok (position + 2))
      → position + 2 + 10 + n ≤ length bytes
      → 6 ≤ n
      → u16_at bytes (position + 2) ≡ 33
      → u16_at bytes (position + 2 + 2) ≡ 1
      → u16_at bytes (position + 2 + 8) ≡ n
      → u16_at bytes (position + 2 + 10 + 4) ≡ port
      → decode_name lossy fuel bytes (position + 2 + 10 + 6) [] ≡ some (ok (q, name))
      → parse_record lossy fuel bytes position
        ≡ some (ok (some (name, port), position + 2 + 10 + n))
  unfolding parse_record parse_target then_with
  parse_record-at bytes name position n port q s l m t c r p d = rw (
    leb-false (length bytes) position (omega arith),
    s,
    ltb-false (length bytes) (position + 2 + 10) (omega arith),
    r,
    ltb-false (length bytes) (position + 2 + 10 + n) l,
    c,
    t,
    le→leb 6 n m,
    d,
    p,
  )

  -- The record of a target, behind anything.
  parse_record-fixed :
      (t : Target) (pre post : Bytes)
      → IsTarget t
      → parse_record lossy fuel (pre ++ (fixed t ++ (t.encoded ++ 0 ∷ post))) (length pre)
        ≡ some (ok (some (t.host, t.port), length pre + 19 + length t.encoded))
  unfolding IsTarget fixed
  parse_record-fixed t pre post (e, k, f) =
      let rest = fixed t ++ (t.encoded ++ 0 ∷ post) in
      let all = length-append pre rest in
      let tail = length-append t.encoded (0 ∷ post) in
      let d = decode_name-encode_name lossy fuel t.host (pre ++ fixed t) post e k f in
      parse_record-at (pre ++ rest) t.host (length pre) (length t.encoded + 7) t.port
        (length (pre ++ fixed t) + length t.encoded + 1)
        (skip_name-pointer (pre ++ rest) (length pre) (omega arith)
          (get_or_at pre rest 0 (length pre) (omega arith)))
        (omega arith) (omega arith) (u16_at-append pre rest 2 _ (omega arith) refl)
        (u16_at-append pre rest 4 _ (omega arith) refl)
        (u16_at-append pre rest 10 _ (omega arith) (halves (length t.encoded + 7)))
        (u16_at-append pre rest 16 _ (omega arith) (halves t.port))
        (ap (λ b. decode_name lossy fuel b (length pre + 2 + 10 + 6) [])
            (sym (append_assoc pre (fixed t) (t.encoded ++ 0 ∷ post)))
          ∙ ap (λ p. decode_name lossy fuel ((pre ++ fixed t) ++ (t.encoded ++ 0 ∷ post)) p [])
              (omega (arith, length-append pre (fixed t)))
          ∙ d)
      ∙ ap (λ q. some (ok (some (t.host, t.port), q))) (omega arith)

  pub parse_records-answers :
      (targets : List Target) (bytes pre : Bytes)
      → bytes ≡ pre ++ answers targets
      → AreTargets targets
      → parse_records lossy fuel bytes (length targets) (length pre)
        ≡ some (ok (map (λ t. (t.host, t.port)) targets))
  unfolding parse_records answers AreTargets then_with
  parse_records-answers [] bytes pre e a = refl
  parse_records-answers (t ∷ targets) bytes pre e (a, rest) =
      let p =
        ap (λ b. parse_record lossy fuel b (length pre)) e
        ∙ parse_record-fixed t pre (answers targets) a
        ∙ ap (λ q. some (ok (some (t.host, t.port), q))) (length-whole pre t) in
      let r =
        parse_records-answers targets bytes (pre ++ whole t)
          (e ∙ append-whole pre (answers targets) t) rest in
      rw (p, r)
