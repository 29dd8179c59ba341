-- ===== src/Edge/Discovery/Cycle.antt =====
-- A compression pointer that points at itself.
use libcfd.Prelude.{
  ℕ, zero, suc, ◌+◌, ◌*◌, ◌/◌, ◌%◌, ◌≡◌, ◌<◌, refl, sym, ap, ◌∙◌, true, none, if◌then◌else◌, length,
  get_or, arith, Bytes, subst,
}
use libcfd.Edge.Discovery.{
  NameState, next, decode_label, decode_step, after_step, decode_loop, decode_name,
}

-- At `p` stands a pointer to `p`.
unfoldable pub PointsAtItself : Bytes → ℕ → Type 0
PointsAtItself bytes p =
    (p + 1 < length bytes)
    × (get_or bytes p 0 ≡ 192 + p / 256)
    × (get_or bytes (p + 1) 0 ≡ p % 256)
    × (p < 16_384)

decode_step-cycle :
    (lossy : Bytes → Bytes) (bytes : Bytes) (s : NameState)
    → PointsAtItself bytes s.p
    → (s' : NameState) × (decode_step lossy bytes s ≡ next s') × (s'.p ≡ s.p)
unfolding decode_step decode_label PointsAtItself
decode_step-cycle lossy bytes s (h, a, b, small) = (
  record {
    p = get_or bytes s.p 0 % 64 * 256 + get_or bytes (s.p + 1) 0;
    jumped = true;
    position = if s.jumped then s.position else s.p + 2;
    out = s.out;
  },
  ground (arith, a),
  omega (arith, a, b),
)

decode_loop-cycle :
    (lossy : Bytes → Bytes) (fuel : ℕ) (bytes : Bytes) (s : NameState)
    → PointsAtItself bytes s.p
    → decode_loop lossy fuel bytes s ≡ none
unfolding decode_loop after_step
decode_loop-cycle lossy zero bytes s h = refl
decode_loop-cycle lossy (suc fuel) bytes s h =
    let (s', e, same) = decode_step-cycle lossy bytes s h in
    ap (λ x. after_step x (decode_loop lossy fuel bytes)) e
    ∙ decode_loop-cycle lossy fuel bytes s' (subst (PointsAtItself bytes) (sym same) h)

-- On a compression pointer that points at itself `decode_name` does not return on any fuel: its
-- loop never ends.
pub decode_name-cycle :
    (from_utf8_lossy : Bytes → Bytes) (fuel : ℕ) (bytes : Bytes) (position : ℕ) (out : Bytes)
    → PointsAtItself bytes position
    → decode_name from_utf8_lossy fuel bytes position out ≡ none
unfolding decode_name
decode_name-cycle from_utf8_lossy fuel bytes position out h =
    decode_loop-cycle from_utf8_lossy fuel bytes _ h
