-- ===== src/Prelude/Int.antt =====
-- C's signed integers: the values of `int` and `long long`, and the wrap of a conversion to them.
use Prim.Native.Nat.{ℕ, suc, ◌-◌, ◌/◌, ◌%◌, ◌^◌, ◌<◌}
use mathlib.Core.Path.{◌≡◌}
use mathlib.Core.Bool.{Bool, true, false}
use native.Mathlib.Omega.{arith}
use storefs.Prelude.Tests.{ltb, if◌then◌else◌}

-- `negsuc n` is -(n + 1).
pub data ℤ : Type 0 where
  pos : ℕ → ℤ
  negsuc : ℕ → ℤ

-- The integer that the low `w` bits of a number stand for, in two's complement.
abbrev pub wrap : ℕ → ℕ → ℤ
wrap w n = if ltb (n % 2 ^ w) (2 ^ (w - 1)) then pos (n % 2 ^ w) else negsuc (2 ^ w - 1 - n % 2 ^ w)

-- The bit pattern of an integer in `w` bits: the conversion to an unsigned type.
abbrev pub bits : ℕ → ℤ → ℕ
bits w (pos n) = n % 2 ^ w
bits w (negsuc n) = 2 ^ w - 1 - n % 2 ^ w

abbrev pub int32 : ℕ → ℤ
int32 n = wrap 32 n

abbrev pub int64 : ℕ → ℤ
int64 n = wrap 64 n

abbrev pub is_neg : ℤ → Bool
is_neg (pos n) = false
is_neg (negsuc n) = true

-- -a
abbrev pub neg : ℕ → ℤ
neg n = if ltb 0 n then negsuc (n - 1) else pos 0

-- C's division of an integer by a positive one: it rounds towards zero.
abbrev pub div_ℤ : ℤ → ℕ → ℤ
div_ℤ (pos a) b = pos (a / b)
div_ℤ (negsuc a) b = neg (suc a / b)

pub wrap_small : (n : ℕ) → n < 2 ^ 31 → int32 n ≡ pos n
wrap_small n h = ground arith

pub wrap64_small : (n : ℕ) → n < 2 ^ 63 → int64 n ≡ pos n
wrap64_small n h = ground arith
