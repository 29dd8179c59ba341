-- ===== src/Edge/Discovery/Skips.antt =====
-- `skip_name` and `decode_name` agree on where a name ends.
use libcfd.Prelude.{
  get_or, none, ℕ, zero, suc, ◌+◌, ◌≡◌, ◌≤◌, ◌<◌, refl, sym, ap, ◌∙◌, String, true, false, Option,
  some, ◌⊎◌, inl, inr, Result, ok, err, length, arith, Bytes, subst,
}
use libcfd.Edge.Discovery.{
  NameState, NameStep, next, done, decode_label, decode_step, after_step, decode_loop, decode_name,
  skip_loop, skip_name,
}

after_step-ok :
    (x : NameStep) (loop : NameState → Option (Result String (ℕ × Bytes))) {r : ℕ × Bytes}
    → after_step x loop ≡ some (ok r)
    → (x ≡ done (ok r)) ⊎ ((s : NameState) × (x ≡ next s) × (loop s ≡ some (ok r)))
unfolding after_step
after_step-ok (done r) loop h = inl cc
after_step-ok (next s) loop h = inr (s, refl, h)

-- What a turn after a jump does to the position.
StepJumped : ℕ → NameStep → Type 0
StepJumped position (done (err e)) = Unit
StepJumped position (done (ok (q, out))) = q ≡ position
StepJumped position (next s) = (s.jumped ≡ true) × (s.position ≡ position)

decode_step-StepJumped :
    (lossy : Bytes → Bytes) (bytes : Bytes) (s : NameState)
    → s.jumped ≡ true
    → StepJumped s.position (decode_step lossy bytes s)
unfolding decode_step decode_label StepJumped
decode_step-StepJumped lossy bytes s j = ground (arith, j)

decode_loop-jumped :
    (lossy : Bytes → Bytes) (fuel : ℕ) (bytes : Bytes) (s : NameState) {q : ℕ} {o : Bytes}
    → s.jumped ≡ true
    → decode_loop lossy fuel bytes s ≡ some (ok (q, o))
    → q ≡ s.position
unfolding decode_loop StepJumped
decode_loop-jumped lossy zero bytes s j h = cc
decode_loop-jumped lossy (suc fuel) bytes s {q} {o} j h =
    let k = decode_step-StepJumped lossy bytes s j in
    elim (after_step-ok (decode_step lossy bytes s) (decode_loop lossy fuel bytes) h) [
      | inl e ↦ subst (StepJumped s.position) e k
      | inr (t, e, l) ↦
          let (j', p) = subst (StepJumped s.position) e k in
          decode_loop-jumped lossy fuel bytes t j' l ∙ p
    ]

-- What a turn before any jump does, and what `skip_name` finds there on its fuel.
module _ (bytes : Bytes) (fuel : ℕ) (p : ℕ) where
  StepSkips : NameStep → Type 0
  StepSkips (done (err e)) = Unit
  StepSkips (done (ok (q, out))) = skip_loop (suc fuel) bytes p ≡ some (ok q)
  StepSkips (next s) =
      ((s.jumped ≡ true) × (skip_loop (suc fuel) bytes p ≡ some (ok s.position)))
      ⊎ ((s.jumped ≡ false) × (p < s.p) × (skip_loop (suc fuel) bytes p ≡ skip_loop fuel bytes s.p))

decode_step-StepSkips :
    (lossy : Bytes → Bytes) (bytes : Bytes) (fuel : ℕ) (s : NameState)
    → s.jumped ≡ false
    → StepSkips bytes fuel s.p (decode_step lossy bytes s)
unfolding decode_step decode_label StepSkips skip_loop
decode_step-StepSkips lossy bytes fuel s j = ground (arith, j)

decode_step-overflow :
    (lossy : Bytes → Bytes) (bytes : Bytes) (s : NameState)
    → length bytes ≤ s.p
    → decode_step lossy bytes s ≡ done (err "name overflow")
unfolding decode_step
decode_step-overflow lossy bytes s h = ground arith

decode_loop-skip :
    (lossy : Bytes → Bytes) (fuel : ℕ) (bytes : Bytes) (g : ℕ) (s : NameState) {q : ℕ} {o : Bytes}
    → s.jumped ≡ false
    → length bytes < s.p + g
    → decode_loop lossy fuel bytes s ≡ some (ok (q, o))
    → skip_loop g bytes s.p ≡ some (ok q)
unfolding decode_loop StepSkips after_step
decode_loop-skip lossy zero bytes g s j b h = cc
decode_loop-skip lossy (suc fuel) bytes zero s j b h =
    let e = decode_step-overflow lossy bytes s (omega arith) in absurd (cc (e, h))
decode_loop-skip lossy (suc fuel) bytes (suc g) s {q} {o} j b h =
    let k = decode_step-StepSkips lossy bytes g s j in
    elim (after_step-ok (decode_step lossy bytes s) (decode_loop lossy fuel bytes) h) [
      | inl e ↦ subst (StepSkips bytes g s.p) e k
      | inr (t, e, l) ↦ elim (subst (StepSkips bytes g s.p) e k) [
        | inl (j', f) ↦ f ∙ ap (λ x. some (ok x)) (sym (decode_loop-jumped lossy fuel bytes t j' l))
        | inr (j', lt, f) ↦ f ∙ decode_loop-skip lossy fuel bytes g t j' (omega arith) l
      ]
    ]

-- Where `decode_name` succeeds, `skip_name` succeeds from the same position and ends at the same
-- place, through compression pointers too.
pub decode_name-skip_name :
    (from_utf8_lossy : Bytes → Bytes) (fuel : ℕ) (bytes : Bytes) (position : ℕ) (out : Bytes)
    {end_position : ℕ} {name : Bytes}
    → decode_name from_utf8_lossy fuel bytes position out ≡ some (ok (end_position, name))
    → skip_name bytes position ≡ some (ok end_position)
unfolding decode_name
decode_name-skip_name from_utf8_lossy fuel bytes position out h =
    decode_loop-skip from_utf8_lossy fuel bytes (suc (length bytes)) _ refl (omega arith) h

-- The end of a name: behind its start, and at most one byte past the message.
pub IsEndOf : Bytes → ℕ → Option (Result String ℕ) → Type 0
IsEndOf bytes p none = ⊥
IsEndOf bytes p (some (err e)) = Unit
IsEndOf bytes p (some (ok q)) = (p < q) × (q ≤ length bytes + 1)

later :
    (bytes : Bytes) (p p' : ℕ) (r : Option (Result String ℕ))
    → p ≤ p'
    → IsEndOf bytes p' r
    → IsEndOf bytes p r
unfolding IsEndOf
later bytes p p' (some (err e)) h i = tt
later bytes p p' (some (ok q)) h (i, j) = (omega arith, j)
later bytes p p' none h i = i

skip_loop-IsEndOf :
    (bytes : Bytes) (fuel p : ℕ)
    → length bytes ≤ p + fuel
    → IsEndOf bytes p (skip_loop (suc fuel) bytes p)
unfolding skip_loop IsEndOf
skip_loop-IsEndOf bytes zero p h = ground arith
skip_loop-IsEndOf bytes (suc fuel) p h =
    let k =
      later bytes p (p + 1 + get_or bytes p 0) _ (omega arith)
        (skip_loop-IsEndOf bytes fuel (p + 1 + get_or bytes p 0) (omega arith)) in
    ground (arith, k)

-- `skip_name` returns on the fuel that it is given, whatever the message, and where it succeeds the
-- end lies behind the start and at most one byte past the message.
pub skip_name-IsEndOf :
    (bytes : Bytes) (position : ℕ) → IsEndOf bytes position (skip_name bytes position)
skip_name-IsEndOf bytes position = skip_loop-IsEndOf bytes (length bytes) position (omega arith)
