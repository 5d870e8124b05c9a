-- ===== src/Json.antt =====
-- The JSON helpers of examples/rdma/c/rdmalib.c, for the flat objects of a fixed protocol.
pub mod Find
use storefs.Prelude.{
  ℕ, zero, suc, ◌+◌, ◌-◌, ◌%◌, Bool, ◌||◌, Option, none, some, [], ◌∷◌, ◌++◌, length, drop, ltb,
  ◌==◌, if◌then◌else◌,
}
use storefs.Prelude.Text.{Bytes, codes, strstr, starts_with, printed}
use storefs.Prelude.Decimal.{decimal, strtoull}

skip_blanks : Bytes → Bytes
skip_blanks [] = []
skip_blanks (c ∷ s) = let rest = skip_blanks s in if c == b' ' then rest else c ∷ s

-- `pat`: the key in quotes and a colon, in 160 bytes
abbrev pub pattern_of : Bytes → Bytes
pattern_of key = printed 160 (b'"' ∷ key ++ (b'"' ∷ b':' ∷ []))

-- The text of the value: behind the first occurrence of the key in quotes with a colon, and of the
-- blanks that follow. `none` is NULL.
unfoldable pub json_find_key : Bytes → Bytes → Option Bytes
unfolding skip_blanks
json_find_key json key = elim (strstr (pattern_of key) json) [
  | none ↦ none
  | some p ↦ some (skip_blanks (drop (length (pattern_of key)) p))
]

unfoldable pub json_get_u64 : Bytes → Bytes → Option ℕ
json_get_u64 json key = elim (json_find_key json key) [ none ↦ none | some p ↦ some (strtoull p).0 ]

unfoldable pub json_get_bool : Bytes → Bytes → Option Bool
json_get_bool json key = elim (json_find_key json key) [
  | none ↦ none
  | some p ↦ some (starts_with (codes "true") p)
]

-- The bytes up to a quote, to the end, or to the last but one place of the buffer.
string_body : ℕ → Bytes → Bytes
string_body zero p = []
string_body (suc room) [] = []
string_body (suc room) (c ∷ p) = let rest = c ∷ string_body room p in if c == b'"' then [] else rest

pub json_get_string : Bytes → Bytes → ℕ → Option Bytes
unfolding string_body
json_get_string json key buflen = elim (json_find_key json key) [
  | none ↦ none
  | some [] ↦ none
  | some (c ∷ p) ↦ if c == b'"' then some (string_body (buflen - 1) p) else none
]

skip_commas : Bytes → Bytes
skip_commas [] = []
skip_commas (c ∷ s) = let rest = skip_commas s in if (c == b' ') || (c == b',') then rest else c ∷ s

-- `n` rounds of the loop over the bytes of an array
pub read_bytes : ℕ → Bytes → Bytes
unfolding skip_commas
read_bytes zero p = []
read_bytes (suc n) p =
    let number = strtoull (skip_commas p) in (number.0 % 256) ∷ read_bytes n number.1

unfoldable pub json_get_bytes16 : Bytes → Bytes → Option Bytes
unfolding read_bytes
json_get_bytes16 json key = elim (json_find_key json key) [
  | none ↦ none
  | some [] ↦ none
  | some (c ∷ p) ↦ if c == b'[' then some (read_bytes 16 p) else none
]

-- The array that `send_qpinfo_client` prints: `"%s%u", i ? "," : "", gid[i]` for each byte.
unfoldable pub more_bytes : Bytes → Bytes
more_bytes [] = []
more_bytes (x ∷ xs) = b',' ∷ decimal x ++ more_bytes xs

unfoldable pub array_bytes : Bytes → Bytes
unfolding more_bytes
array_bytes [] = []
array_bytes (x ∷ xs) = decimal x ++ more_bytes xs
