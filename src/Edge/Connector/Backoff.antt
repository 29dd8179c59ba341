-- ===== src/Edge/Connector/Backoff.antt =====
-- src/edge/connector/backoff.rs: the reconnect delay. `random` is the number that the eight random
-- bytes spell; a base of 2 ^ 64 nanoseconds or more is cut by `as u64`, as there.
use libcfd.Prelude.{
  ℕ, zero, suc, ◌-◌, ◌*◌, ◌%◌, ◌^◌, ◌≡◌, ◌≤◌, ◌<◌, ◌==◌, if◌then◌else◌, min, arith,
}
use native.Mathlib.Nat.{pow-suc, zero-mul}

abbrev u64_mod : ℕ
u64_mod = 18_446_744_073_709_551_616

-- `u64::saturating_mul`.
abbrev saturating_mul : ℕ → ℕ → ℕ
saturating_mul a b = min (a * b) (u64_mod - 1)

unfoldable maximum_nanos : ℕ → ℕ → ℕ
maximum_nanos retries base =
    min (saturating_mul (base % u64_mod) (2 ^ min retries 30)) 4_611_686_018_427_387_904

unfoldable pub retry_delay : ℕ → ℕ → ℕ → ℕ
unfolding maximum_nanos
retry_delay retries base random =
    if maximum_nanos retries base == 0 then 0 else random % maximum_nanos retries base

pow-pos : (k : ℕ) → 0 < 2 ^ k
pow-pos zero = omega arith
pow-pos (suc k) = rw pow-suc (omega (arith, pow-pos k))

scaled-pos : (base k : ℕ) → 0 < base → 0 < base * 2 ^ k
scaled-pos base k h = grind (arith, pow-pos k)

delay-lt : (bound random x : ℕ) → 0 < x → bound ≤ x → (if bound == 0 then 0 else random % bound) < x
delay-lt bound random x p h = ground arith

-- The delay stays below `base * 2 ^ min(retries, 30)` and below 2 ^ 62 nanoseconds, and it is zero
-- where the base is zero.
pub retry_delay-bounded :
    (retries base random : ℕ)
    → base < 18_446_744_073_709_551_616
    → ((0 < base)
        → (retry_delay retries base random < base * 2 ^ min retries 30)
          × (retry_delay retries base random < 4_611_686_018_427_387_904))
      × (base ≡ 0 → retry_delay retries base random ≡ 0)
unfolding retry_delay
retry_delay-bounded retries base random h =
    let cut : base % u64_mod ≡ base = omega arith in
    rw cut (
      (λ p. (
        delay-lt _ random (base * 2 ^ min retries 30) (scaled-pos base (min retries 30) p)
            (omega arith),
        delay-lt _ random 4_611_686_018_427_387_904 (omega arith) (omega arith),
      )),
      λ z. rw z (ground (arith, zero-mul (2 ^ min retries 30))),
    )
