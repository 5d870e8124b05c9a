-- ===== src/Prelude/Bits.antt =====
-- C's `|`, `&` and `^` at variables: one law for the lowest digit of each operation, and from it
-- what the code uses of them at every width.
use Prim.Native.Nat.{ℕ, zero, suc, ◌+◌, ◌-◌, ◌*◌, ◌/◌, ◌%◌, ◌^◌, ◌≤◌, ◌<◌, min, max}
use Prim.Native.Nat.{
  bit_and, bit_or, bit_xor, bitwise, digits, differ, bit_and-bitwise, bit_or-bitwise,
}
use Prim.Native.Nat.{bit_xor-bitwise}
use mathlib.Core.Path.{◌≡◌, refl, ap, ◌∙◌}
use mathlib.Core.Bool.{Bool, true, false}
use storefs.Prelude.Tests.{if◌then◌else◌}
use native.Mathlib.Nat.{div-add-mod, pow-suc, one-le-pow}
use native.Mathlib.Omega.{arith}

-- What is left of a bitwise recursion does not depend on how much fuel it has to spare.
spare_fuel :
    (z : ℕ → ℕ) (f : ℕ → ℕ → ℕ) (n a m b : ℕ) → a ≤ n → a ≤ m → digits z f n a b ≡ digits z f m a b
spare_fuel z f zero zero zero b p q = refl
spare_fuel z f zero zero (suc m) b p q = refl
spare_fuel z f (suc n) zero zero b p q = refl
spare_fuel z f (suc n) zero (suc m) b p q = refl
spare_fuel z f zero (suc a) m b p q = absurd (omega arith)
spare_fuel z f (suc n) (suc a) zero b p q = absurd (omega arith)
spare_fuel z f (suc n) (suc a) (suc m) b p q =
    rw (spare_fuel z f n (suc a / 2) m (b / 2) (omega arith) (omega arith))

-- The digit of a sum without carry.
differ-mod : (a b : ℕ) → a < 2 → b < 2 → differ a b ≡ (a + b) % 2
differ-mod zero zero p q = refl
differ-mod zero (suc zero) p q = refl
differ-mod (suc zero) zero p q = refl
differ-mod (suc zero) (suc zero) p q = refl
differ-mod zero (suc (suc b)) p q = absurd (omega arith)
differ-mod (suc zero) (suc (suc b)) p q = absurd (omega arith)
differ-mod (suc (suc a)) b p q = absurd (omega arith)

-- One step of the recursion on digits, with the fuel that `bitwise` gives it.
lowest :
    (z : ℕ → ℕ) (f : ℕ → ℕ → ℕ) (a b : ℕ)
    → bitwise z f (suc a) b ≡ bitwise z f (suc a / 2) (b / 2) * 2 + f (suc a % 2) (b % 2)
lowest z f a b =
    ap (λ q. q * 2 + f (suc a % 2) (b % 2))
      (spare_fuel z f a (suc a / 2) (suc a / 2) (b / 2) (omega arith) (omega arith))

pub or_digit : (a b : ℕ) → bit_or a b ≡ bit_or (a / 2) (b / 2) * 2 + max (a % 2) (b % 2)
or_digit zero b = rw (bit_or-bitwise 0 b, bit_or-bitwise 0 (b / 2)) (omega arith)
or_digit (suc a) b =
    rw (bit_or-bitwise (suc a) b, bit_or-bitwise (suc a / 2) (b / 2)) (lowest (λ y. y) max a b)

pub and_digit : (a b : ℕ) → bit_and a b ≡ bit_and (a / 2) (b / 2) * 2 + min (a % 2) (b % 2)
and_digit zero b = rw (bit_and-bitwise 0 b, bit_and-bitwise 0 (b / 2)) (omega arith)
and_digit (suc a) b =
    rw (bit_and-bitwise (suc a) b, bit_and-bitwise (suc a / 2) (b / 2)) (lowest (λ y. 0) min a b)

pub xor_digit : (a b : ℕ) → bit_xor a b ≡ bit_xor (a / 2) (b / 2) * 2 + (a % 2 + b % 2) % 2
xor_digit zero b = rw (bit_xor-bitwise 0 b, bit_xor-bitwise 0 (b / 2)) (omega arith)
xor_digit (suc a) b =
    rw
      (
        ← differ-mod (suc a % 2) (b % 2) (omega arith) (omega arith),
        bit_xor-bitwise (suc a) b,
        bit_xor-bitwise (suc a / 2) (b / 2),
      )
      (lowest (λ y. y) differ a b)

or-zero_below : (n a : ℕ) → a ≤ n → bit_or a 0 ≡ a
or-zero_below n zero h = refl
or-zero_below zero (suc a) h = absurd (omega arith)
or-zero_below (suc n) (suc a) h =
    omega (arith, or_digit (suc a) 0, or-zero_below n (suc a / 2) (omega arith))

and-zero_below : (n a : ℕ) → a ≤ n → bit_and a 0 ≡ 0
and-zero_below n zero h = refl
and-zero_below zero (suc a) h = absurd (omega arith)
and-zero_below (suc n) (suc a) h =
    omega (arith, and_digit (suc a) 0, and-zero_below n (suc a / 2) (omega arith))

-- `(q << k) | r` is a sum where `r` fits `k` bits.
pub or_shifted : (k q r : ℕ) → r < 2 ^ k → bit_or (q * 2 ^ k) r ≡ q * 2 ^ k + r
or_shifted zero q r h =
    let e : r ≡ 0 = omega arith in rw e (or-zero_below (q * 2 ^ 0) _ (omega arith) ∙ omega arith)
or_shifted (suc k) q r h = ground (
  arith,
  or_digit (q * 2 ^ suc k) r,
  pow-suc 2 k,
  ap (λ (t : ℕ). q * t) (pow-suc 2 k),
  or_shifted k q (r / 2) (omega (arith, pow-suc 2 k)),
)

half_mod : (d a : ℕ) → 0 < d → a % (2 * d) ≡ (a / 2) % d * 2 + a % 2
half_mod d a h = grind (arith, div-add-mod)

-- `a & (2^k - 1)` is a remainder.
pub and_mask : (k a : ℕ) → bit_and a (2 ^ k - 1) ≡ a % 2 ^ k
and_mask zero a = omega (arith, and-zero_below a a (omega arith))
and_mask (suc k) a = ground (
  arith,
  and_digit a (2 ^ suc k - 1),
  pow-suc 2 k,
  one-le-pow k 2,
  and_mask k (a / 2),
  half_mod (2 ^ k) a,
)

xor_twice_below : (n a m : ℕ) → a ≤ n → m ≤ n → bit_xor (bit_xor a m) m ≡ a
xor_twice_below zero zero zero p q = refl
xor_twice_below zero zero (suc m) p q = absurd (omega arith)
xor_twice_below zero (suc a) m p q = absurd (omega arith)
xor_twice_below (suc n) a m p q =
    let half : bit_xor a m / 2 ≡ bit_xor (a / 2) (m / 2) = omega (arith, xor_digit a m) in
    let step : bit_xor (bit_xor a m / 2) (m / 2) ≡ a / 2 =
      rw half (xor_twice_below n (a / 2) (m / 2) (omega arith) (omega arith)) in
    omega (arith, step, xor_digit a m, xor_digit (bit_xor a m) m)

-- Masking twice by the same byte gives the byte back.
pub xor_twice : (a m : ℕ) → bit_xor (bit_xor a m) m ≡ a
xor_twice a m = xor_twice_below (a + m) a m (omega arith) (omega arith)

-- A test of each of the first `bound` numbers, from the last one down, run by evaluation.
unfoldable pub passes : (test : ℕ → Bool) (bound : ℕ) → Bool
passes test zero = true
passes test (suc last) = if test last then passes test last else false

pub passes_each :
    (test : ℕ → Bool) (bound k : ℕ) → k < bound → passes test bound ≡ true → test k ≡ true
unfolding passes
passes_each test zero k below done = absurd (omega arith)
passes_each test (suc last) k below done = ground (arith, passes_each test last k)
