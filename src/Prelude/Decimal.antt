-- ===== src/Prelude/Decimal.antt =====
-- Decimal numbers: `%u` and `%llu` of `printf`, and `strtoull`, `strtol` and what stands on them.
use Prim.Native.Nat.{ℕ, zero, suc, ◌+◌, ◌-◌, ◌*◌, ◌/◌, ◌%◌, ◌^◌, ◌≤◌, ◌<◌, min}
use mathlib.Core.Path.{◌≡◌, refl}
use mathlib.Core.Logic.{◌≢◌, ◌⊎◌}
use mathlib.Core.Bool.{Bool, true, false, ◌&&◌, ◌||◌}
use mathlib.Core.List.{[], ◌∷◌, ◌++◌, cons-ne-nil}
use native.Mathlib.Nat.{pow-suc}
use native.Mathlib.Omega.{arith}
use storefs.Prelude.Tests.{◌==◌, ltb, leb, if◌then◌else◌}
use storefs.Prelude.Lists.{All, length}
use storefs.Prelude.Text.{Bytes, Lacks}
use storefs.Prelude.Int.{ℤ, pos, negsuc, wrap, bits, neg}

-- The digits of `n` in front of `out`; `fuel` bounds their number.
show_digits : (fuel n : ℕ) → Bytes → Bytes
show_digits zero n out = out
show_digits (suc fuel) n out = elim (n / 10 == 0) [
  | true ↦ (b'0' + n % 10) ∷ out
  | false ↦ show_digits fuel (n / 10) ((b'0' + n % 10) ∷ out)
]

-- `printf("%llu")`: `n` has at most `n + 1` digits.
unfoldable pub decimal : ℕ → Bytes
unfolding show_digits
decimal n = show_digits (suc n) n []

-- `isspace`
abbrev pub is_space : ℕ → Bool
is_space c = (c == 32) || (leb 9 c && leb c 13)

abbrev pub is_digit : ℕ → Bool
is_digit c = leb b'0' c && leb c b'9'

unfoldable pub skip_space : Bytes → Bytes
skip_space [] = []
skip_space (c ∷ s) = let rest = skip_space s in if is_space c then rest else c ∷ s

-- The number that the leading digits spell behind `acc`, and the text behind them.
unfoldable pub read_digits : ℕ → Bytes → ℕ × Bytes
read_digits acc [] = (acc, [])
read_digits acc (c ∷ s) =
    let rest = read_digits (acc * 10 + (c - b'0')) s in if is_digit c then rest else (acc, c ∷ s)

-- The sign, if there is one, and the text behind it.
abbrev pub read_sign : Bytes → Bool × Bytes
read_sign [] = (false, [])
read_sign (c ∷ s) =
    if c == b'-' then (true, s) else if c == b'+' then (false, s) else (false, c ∷ s)

abbrev pub starts_digit : Bytes → Bool
starts_digit [] = false
starts_digit (c ∷ s) = is_digit c

-- `strtoull(s, &end, 10)` for 64 bits, with `end`. A number out of range gives the greatest value, a
-- minus sign negates, and with no digit the result is 0 and `end` is `s`.
unfoldable pub strtoull : Bytes → ℕ × Bytes
unfolding skip_space read_digits
strtoull s =
    let signed = read_sign (skip_space s) in
    let number = read_digits 0 signed.1 in
    if starts_digit signed.1
    then (if ltb (2 ^ 64 - 1) number.0
        then (2 ^ 64 - 1, number.1)
        else if signed.0
        then ((2 ^ 64 - number.0) % 2 ^ 64, number.1)
        else number)
    else (0, s)

-- `strtoll(s, NULL, 10)` for 64 bits; so is `atoll`.
unfoldable pub atoll : Bytes → ℤ
unfolding skip_space read_digits
atoll s =
    let signed = read_sign (skip_space s) in
    let n = (read_digits 0 signed.1).0 in
    if signed.0 then neg (min n (2 ^ 63)) else pos (min n (2 ^ 63 - 1))

-- `atoi`: the `int` of the low 32 bits.
unfoldable pub atoi : Bytes → ℤ
unfolding atoll
atoi s = wrap 32 (bits 64 (atoll s))

-- `printf("%lld")`
abbrev pub signed_decimal : ℤ → Bytes
signed_decimal (pos n) = decimal n
signed_decimal (negsuc n) = b'-' ∷ decimal (suc n)

abbrev pub AllDigits : Bytes → Type 0
AllDigits = All (λ c. (b'0' ≤ c) × (c ≤ b'9'))

show_digits-AllDigits :
    (fuel n : ℕ) (out : Bytes) → AllDigits out → AllDigits (show_digits fuel n out)
unfolding show_digits
show_digits-AllDigits zero n out h = h
show_digits-AllDigits (suc fuel) n out h =
    ground (arith, show_digits-AllDigits fuel (n / 10) ((b'0' + n % 10) ∷ out))

pub decimal-AllDigits : (n : ℕ) → AllDigits (decimal n)
unfolding decimal
decimal-AllDigits n = show_digits-AllDigits (suc n) n [] tt

-- Reading the last digit of `n` behind the digits in front of it gives `n`.
read_last : (n : ℕ) (out : Bytes) → read_digits (n / 10) ((b'0' + n % 10) ∷ out) ≡ read_digits n out
unfolding read_digits
read_last n out = ground arith

read_digits-show :
    (fuel n : ℕ) (out : Bytes)
    → n < fuel
    → read_digits 0 (show_digits fuel n out) ≡ read_digits n out
unfolding show_digits
read_digits-show zero n out h = absurd (omega arith)
read_digits-show (suc fuel) n out h =
    ground (arith, read_last n out, read_digits-show fuel (n / 10) ((b'0' + n % 10) ∷ out))

-- The text behind a number does not go on with a digit.
abbrev pub Ends : Bytes → Type 0
Ends s = starts_digit s ≡ false

read_digits_stop : (n : ℕ) (s : Bytes) → Ends s → read_digits n s ≡ (n, s)
unfolding read_digits
read_digits_stop n [] h = refl
read_digits_stop n (c ∷ s) h = ground arith

show_digits-append :
    (fuel n : ℕ) (out s : Bytes) → show_digits fuel n out ++ s ≡ show_digits fuel n (out ++ s)
unfolding show_digits
show_digits-append zero n out s = refl
show_digits-append (suc fuel) n out s =
    ground (arith, show_digits-append fuel (n / 10) ((b'0' + n % 10) ∷ out) s)

-- A number that was printed is read back, up to the text behind it.
pub read_digits-decimal : (n : ℕ) (s : Bytes) → Ends s → read_digits 0 (decimal n ++ s) ≡ (n, s)
unfolding decimal
read_digits-decimal n s h =
    rw (show_digits-append (suc n) n [] s, read_digits-show (suc n) n s (omega arith))
      (read_digits_stop n s h)

show_digits-ne-nil : (fuel n c : ℕ) (out : Bytes) → show_digits fuel n (c ∷ out) ≢ []
unfolding show_digits
show_digits-ne-nil zero n c out = cons-ne-nil c out
show_digits-ne-nil (suc fuel) n c out = ground (
  arith,
  cons-ne-nil (b'0' + n % 10) (c ∷ out),
  show_digits-ne-nil fuel (n / 10) (b'0' + n % 10) (c ∷ out),
)

pub decimal-ne-nil : (n : ℕ) → decimal n ≢ []
unfolding decimal
decimal-ne-nil n =
    ground (arith, cons-ne-nil (b'0' + n % 10) [], show_digits-ne-nil n (n / 10) (b'0' + n % 10) [])

-- Text that starts with a digit loses neither blanks nor a sign.
sign_of-digits :
    (d s : Bytes)
    → d ≢ []
    → AllDigits d
    → (read_sign (skip_space (d ++ s)) ≡ (false, d ++ s)) × (starts_digit (d ++ s) ≡ true)
unfolding skip_space
sign_of-digits [] s h k = absurd (h refl)
sign_of-digits (c ∷ d) s h ((low, high), k) = ground arith

sign_of-decimal :
    (n : ℕ) (s : Bytes)
    → (read_sign (skip_space (decimal n ++ s)) ≡ (false, decimal n ++ s))
      × (starts_digit (decimal n ++ s) ≡ true)
sign_of-decimal n s = sign_of-digits (decimal n) s (decimal-ne-nil n) (decimal-AllDigits n)

pub strtoull-decimal :
    (n : ℕ) (s : Bytes) → n < 2 ^ 64 → Ends s → strtoull (decimal n ++ s) ≡ (n, s)
unfolding strtoull
strtoull-decimal n s h e =
    rw ((sign_of-decimal n s).0, (sign_of-decimal n s).1, read_digits-decimal n s e) (ground arith)

pub atoi-decimal : (n : ℕ) (s : Bytes) → n < 2 ^ 31 → Ends s → atoi (decimal n ++ s) ≡ pos n
unfolding atoi
atoi-decimal n s h e = rw ((sign_of-decimal n s).0, read_digits-decimal n s e) (ground arith)

pub atoll-decimal : (n : ℕ) (s : Bytes) → n < 2 ^ 63 → Ends s → atoll (decimal n ++ s) ≡ pos n
unfolding atoll
atoll-decimal n s h e = rw ((sign_of-decimal n s).0, read_digits-decimal n s e) (ground arith)

-- Digits hold none of the bytes that separate numbers.
pub digits-Lacks : (b : ℕ) (s : Bytes) → (b < b'0') ⊎ (b'9' < b) → AllDigits s → Lacks b s
digits-Lacks b [] h k = tt
digits-Lacks b (c ∷ s) h (p, k) = (grind arith, digits-Lacks b s h k)

length-show_digits :
    (k fuel n : ℕ) (out : Bytes)
    → n < 10 ^ suc k
    → length (show_digits fuel n out) ≤ suc k + length out
unfolding show_digits
length-show_digits k zero n out h = omega arith
length-show_digits zero (suc fuel) n out h = ground (arith, pow-suc 10 0)
length-show_digits (suc k) (suc fuel) n out h =
    ground (arith, pow-suc 10 (suc k), length-show_digits k fuel (n / 10) ((b'0' + n % 10) ∷ out))

-- A number below 10 ^ (k + 1) has at most k + 1 digits.
pub length-decimal : (k n : ℕ) → n < 10 ^ suc k → length (decimal n) ≤ suc k
unfolding decimal
length-decimal k n h = omega (arith, length-show_digits k (suc n) n [] h)
