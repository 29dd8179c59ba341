-- ===== src/Prelude/Cuts.antt =====
-- Bytes cut at a position: what lies before and behind it.
use libcfd.Prelude.{
  [], ℕ, zero, suc, ◌+◌, ◌≡◌, ◌≢◌, ◌≤◌, ◌<◌, refl, sym, ap, ◌∙◌, false, ◌∷◌, ◌++◌, ltb, length,
  take, drop, arith, Bytes, length-take, length-drop, take-append-drop,
}

drop-nil : (n : ℕ) → drop {A = ℕ} n [] ≡ []
drop-nil zero = refl
drop-nil (suc n) = refl

drop-drop : (n m k : ℕ) (xs : Bytes) → k ≡ m + n → drop n (drop m xs) ≡ drop k xs
drop-drop n zero k xs e = ap (λ i. drop i xs) (omega arith)
drop-drop n (suc m) k [] e = drop-nil n ∙ sym (drop-nil k)
drop-drop n (suc m) zero (x ∷ xs) e = absurd (omega arith)
drop-drop n (suc m) (suc k) (x ∷ xs) e = drop-drop n m k xs (omega arith)

pub drop-length : (n : ℕ) (xs : Bytes) → length xs ≤ n → drop n xs ≡ []
drop-length zero [] h = refl
drop-length zero (x ∷ xs) h = absurd (omega arith)
drop-length (suc n) [] h = refl
drop-length (suc n) (x ∷ xs) h = drop-length n xs (omega arith)

pub is_nil : (xs : Bytes) → length xs ≤ 0 → xs ≡ []
is_nil [] h = refl
is_nil (x ∷ xs) h = absurd (omega arith)

pub at_most : (p n : ℕ) → p ≡ 0 → ltb p n ≡ false → n ≤ 0
at_most p n e t = ground arith

not_nil : (xs : Bytes) → 0 < length xs → xs ≢ []
not_nil [] h e = omega arith
not_nil (x ∷ xs) h e = cc

-- A front of the chunk and what is left behind it.
pub front : (chunk : Bytes) (p n : ℕ) → drop p chunk ≡ take n (drop p chunk) ++ drop (p + n) chunk
front chunk p n =
    sym (take-append-drop n (drop p chunk))
    ∙ ap (λ d. take n (drop p chunk) ++ d) (drop-drop n p (p + n) chunk refl)

pub front_not_nil :
    (chunk : Bytes) (p n : ℕ) → 0 < n → p + n ≤ length chunk → take n (drop p chunk) ≢ []
front_not_nil chunk p n h l =
    not_nil (take n (drop p chunk))
      (omega (arith, length-take n (drop p chunk), length-drop p chunk))
