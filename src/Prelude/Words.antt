-- ===== src/Prelude/Words.antt =====
-- Bytes as numbers below 256, fixed-width integers as numbers below a power of two, and the two
-- byte orders of the wire formats.
use Prim.Native.Nat.{ℕ, ◌+◌, ◌*◌, ◌/◌, ◌%◌, ◌<◌, min}
use mathlib.Core.Path.{◌≡◌}
use mathlib.Core.List.{[], List, ◌∷◌}
use native.Mathlib.Omega.{arith}

abbrev pub Bytes : Type 0
Bytes = List ℕ

-- `u16::from_be_bytes`, on the two bytes.
abbrev pub u16_from_be_bytes : ℕ → ℕ → ℕ
u16_from_be_bytes hi lo = hi * 256 + lo

-- `u32::from_le_bytes`, on the four bytes.
abbrev pub u32_from_le_bytes : ℕ → ℕ → ℕ → ℕ → ℕ
u32_from_le_bytes a b c d = a + 256 * b + 65_536 * c + 16_777_216 * d

-- `u32::to_le_bytes`.
abbrev pub u32_to_le_bytes : ℕ → Bytes
u32_to_le_bytes n = (n % 256) ∷ (n / 256 % 256) ∷ (n / 65_536 % 256) ∷ (n / 16_777_216 % 256) ∷ []

-- `saturating_add` at the widths that the program uses.
abbrev pub saturating_add_u8 : ℕ → ℕ → ℕ
saturating_add_u8 a b = min (a + b) 255

abbrev pub saturating_add_u32 : ℕ → ℕ → ℕ
saturating_add_u32 a b = min (a + b) 4_294_967_295

abbrev pub saturating_add_u64 : ℕ → ℕ → ℕ
saturating_add_u64 a b = min (a + b) 18_446_744_073_709_551_615

-- The little-endian bytes of a 32-bit number read back as that number.
pub u32_le_round_trip :
    (n : ℕ)
    → n < 4_294_967_296
    → u32_from_le_bytes (n % 256) (n / 256 % 256) (n / 65_536 % 256) (n / 16_777_216 % 256) ≡ n
u32_le_round_trip n h = omega arith
