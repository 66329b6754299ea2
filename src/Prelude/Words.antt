-- ===== src/Prelude/Words.antt =====
-- Machine integers: unsigned widths as ℕ with the wrap written out.
use Prim.Native.Nat.{ℕ, ◌+◌, ◌-◌, ◌%◌, ◌<◌}
use mathlib.Core.Path.{◌≡◌}
use native.Mathlib.Omega.{arith}
use pubsublib.Prelude.Tests.{ltb, if◌then◌else◌}
use pubsublib.Prelude.Int.{ℤ, pos, negsuc}

-- uint8_t.
abbrev pub u8 : ℕ → ℕ
u8 n = n % 256

-- 2 ^ 31, 2 ^ 32, 2 ^ 63 and 2 ^ 64.
abbrev pub two_31 : ℕ
two_31 = 2_147_483_648

abbrev pub two_32 : ℕ
two_32 = 4_294_967_296

abbrev pub two_63 : ℕ
two_63 = 9_223_372_036_854_775_808

abbrev pub two_64 : ℕ
two_64 = 18_446_744_073_709_551_616

-- static_cast from a signed type to the unsigned type of the same width, of `modulus` values.
unfoldable pub to_unsigned : ℕ → ℤ → ℕ
to_unsigned modulus (pos n) = n % modulus
to_unsigned modulus (negsuc n) = modulus - 1 - n % modulus

-- static_cast back; `half` is half of the modulus.
unfoldable pub to_signed : ℕ → ℕ → ℤ
to_signed half n = if ltb n half then pos n else negsuc (half + half - 1 - n)

-- The integers of a signed type with numbers below `half`.
abbrev pub InRange : ℕ → ℤ → Type 0
InRange half (pos n) = n < half
InRange half (negsuc n) = n < half

-- An integer in range survives the two casts.
pub to_signed-to_unsigned_32 :
    (a : ℤ) → InRange two_31 a → to_signed two_31 (to_unsigned two_32 a) ≡ a
unfolding to_signed to_unsigned
to_signed-to_unsigned_32 (pos n) h = ground arith
to_signed-to_unsigned_32 (negsuc n) h = ground arith

pub to_signed-to_unsigned_64 :
    (a : ℤ) → InRange two_63 a → to_signed two_63 (to_unsigned two_64 a) ≡ a
unfolding to_signed to_unsigned
to_signed-to_unsigned_64 (pos n) h = ground arith
to_signed-to_unsigned_64 (negsuc n) h = ground arith
