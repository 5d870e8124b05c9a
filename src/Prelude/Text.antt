-- ===== src/Prelude/Text.antt =====
-- C strings: a pointer into a string is the list of the bytes from there to the end, less the
-- closing NUL. Here are the functions of <string.h> and <stdio.h> that the clients call.
use Prim.Native.Nat.{ℕ, ◌+◌, ◌-◌, ◌/◌, ◌%◌, ◌<◌}
use Prim.Native.Char.{code}
use Prim.Native.String.{String}
use mathlib.Core.Logic.{◌≢◌}
use mathlib.Core.Bool.{Bool, true, false, ◌&&◌, ◌||◌}
use mathlib.Core.List.{List, [], ◌∷◌, ◌++◌}
use mathlib.Core.Option.{Option, none, some}
use storefs.Prelude.Tests.{ltb, ◌==◌, if◌then◌else◌}
use storefs.Prelude.Lists.{length, take, All}

abbrev pub Bytes : Type 0
Bytes = List ℕ

-- The bytes of an ASCII literal.
abbrev pub codes : String → Bytes
codes String.[] = []
codes (String.◌∷◌ c s) = code c ∷ codes s

abbrev pub IsByte : ℕ → Type 0
IsByte c = c < 256

-- The text holds no byte `b`.
abbrev pub Lacks : ℕ → Bytes → Type 0
Lacks b = All (λ c. c ≢ b)

-- `strncmp(s, prefix, strlen(prefix)) == 0`
unfoldable pub starts_with : Bytes → Bytes → Bool
starts_with [] s = true
starts_with (x ∷ xs) [] = false
starts_with (x ∷ xs) (c ∷ s) = (x == c) && starts_with xs s

-- `strcmp(a, b) == 0`
unfoldable pub same_text : Bytes → Bytes → Bool
same_text [] [] = true
same_text [] (c ∷ s) = false
same_text (x ∷ xs) [] = false
same_text (x ∷ xs) (c ∷ s) = (x == c) && same_text xs s

-- `strstr`: the first occurrence of `needle`, as the rest of the text from there.
unfoldable pub strstr : Bytes → Bytes → Option Bytes
unfolding starts_with
strstr needle [] = if starts_with needle [] then some [] else none
strstr needle (c ∷ s) = if starts_with needle (c ∷ s) then some (c ∷ s) else strstr needle s

-- `strchr`
unfoldable pub strchr : ℕ → Bytes → Option Bytes
strchr c [] = none
strchr c (x ∷ s) = if x == c then some (x ∷ s) else strchr c s

-- The bytes of `p` in front of the pointer `q` into it: `q - p` of them.
abbrev pub before : Bytes → Bytes → Bytes
before p q = take (length p - length q) p

-- What `snprintf` leaves in a buffer of `size` bytes, less the NUL.
abbrev pub printed : ℕ → Bytes → Bytes
printed size s = take (size - 1) s

-- What a program reads of a buffer as a C string: the bytes in front of the first NUL.
unfoldable pub c_string : Bytes → Bytes
c_string [] = []
c_string (c ∷ s) = let rest = c ∷ c_string s in if c == 0 then [] else rest

-- `strcmp(a, b) < 0`
unfoldable pub text_lt : Bytes → Bytes → Bool
text_lt a [] = false
text_lt [] (c ∷ s) = true
text_lt (x ∷ xs) (c ∷ s) = ltb x c || ((x == c) && text_lt xs s)

-- `pos += snprintf(buf + pos, size - pos, ...)` for each piece behind `text`. Where `pos` is past the
-- size, the size that is left wraps around, and `none` stands for what the call then does.
unfoldable pub appended : ℕ → Bytes → List Bytes → Option Bytes
appended size text [] = some (printed size text)
appended size text (s ∷ ss) =
    let rest = appended size (text ++ s) ss in if ltb size (length text) then none else rest

-- Two digits of a number: "%02d" of a number below 100.
abbrev pub two_digits : ℕ → Bytes
two_digits n = (n / 10 % 10 + b'0') ∷ (n % 10 + b'0') ∷ []

abbrev hex_digit : ℕ → ℕ
hex_digit d = if ltb d 10 then d + b'0' else d - 10 + b'a'

-- "%02x" of each byte
unfoldable pub hex : Bytes → Bytes
hex [] = []
hex (x ∷ xs) = hex_digit (x / 16) ∷ hex_digit (x % 16) ∷ hex xs
