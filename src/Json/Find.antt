-- ===== src/Json/Find.antt =====
-- Where the helpers find a key, and how they read what `printf` wrote there.
use storefs.Prelude.{
  ℕ, suc, ◌%◌, ◌^◌, ◌<◌, ◌≡◌, ◌≢◌, inl, refl, ap, sym, drop-append, ◌∙◌, some, [], ◌∷◌, ◌++◌,
  append_assoc, arith, length, All,
}
use storefs.Prelude.Text.{Bytes, Lacks, IsByte, strstr}
use storefs.Prelude.Search.{Lacks-append}
use storefs.Prelude.Decimal.{
  decimal, strtoull-decimal, decimal-AllDigits, digits-Lacks, decimal-ne-nil, AllDigits, Ends,
}
use storefs.Json.{
  json_find_key, json_get_u64, json_get_bytes16, pattern_of, skip_blanks, skip_commas, read_bytes,
  more_bytes, array_bytes,
}

pub decimal-Lacks_quote : (n : ℕ) → Lacks b'"' (decimal n)
decimal-Lacks_quote n = digits-Lacks b'"' (decimal n) (inl (omega arith)) (decimal-AllDigits n)

pub more_bytes-Lacks_quote : (xs : Bytes) → Lacks b'"' (more_bytes xs)
unfolding more_bytes
more_bytes-Lacks_quote [] = tt
more_bytes-Lacks_quote (x ∷ xs) = (
  omega arith,
  Lacks-append b'"' (decimal x) (more_bytes xs) (decimal-Lacks_quote x) (more_bytes-Lacks_quote xs),
)

pub array_bytes-Lacks_quote : (xs : Bytes) → Lacks b'"' (array_bytes xs)
unfolding array_bytes
array_bytes-Lacks_quote [] = tt
array_bytes-Lacks_quote (x ∷ xs) =
    Lacks-append b'"' (decimal x) (more_bytes xs) (decimal-Lacks_quote x)
      (more_bytes-Lacks_quote xs)

skip_commas_digits : (d s : Bytes) → d ≢ [] → AllDigits d → skip_commas (d ++ s) ≡ d ++ s
unfolding skip_commas
skip_commas_digits [] s h k = absurd (h refl)
skip_commas_digits (c ∷ d) s h k = ground arith

more_bytes_end : (xs s : Bytes) → Ends s → Ends (more_bytes xs ++ s)
unfolding more_bytes
more_bytes_end [] s h = h
more_bytes_end (x ∷ xs) s h = refl

-- One round of the loop reads one number, with a comma in front of it or none.
read_one :
    (n x : ℕ) (s : Bytes)
    → IsByte x
    → Ends s
    → (read_bytes (suc n) (decimal x ++ s) ≡ x ∷ read_bytes n s)
      × (read_bytes (suc n) (b',' ∷ decimal x ++ s) ≡ x ∷ read_bytes n s)
unfolding read_bytes
read_one n x s h e =
    let skip = skip_commas_digits (decimal x) s (decimal-ne-nil x) (decimal-AllDigits x) in
    let number = strtoull-decimal x s (omega arith) e in
    let fits : x % 256 ≡ x = omega arith in
    (rw (skip, number, fits) refl, rw (skip, number, fits) refl)

-- The bytes of an array that was written are read back, in front of any text but a digit.
read_bytes-more :
    (xs s : Bytes) → All IsByte xs → Ends s → read_bytes (length xs) (more_bytes xs ++ s) ≡ xs
unfolding more_bytes
read_bytes-more [] s h e = unfold read_bytes in refl
read_bytes-more (x ∷ xs) s (hx, h) e =
    rw
      (
        append_assoc (decimal x) (more_bytes xs) s,
        (read_one (length xs) x (more_bytes xs ++ s) hx (more_bytes_end xs s e)).1,
      )
      (ap (λ t. x ∷ t) (read_bytes-more xs s h e))

pub read_bytes-array :
    (xs s : Bytes) → All IsByte xs → Ends s → read_bytes (length xs) (array_bytes xs ++ s) ≡ xs
unfolding array_bytes
read_bytes-array [] s h e = unfold read_bytes in refl
read_bytes-array (x ∷ xs) s (hx, h) e =
    rw
      (
        append_assoc (decimal x) (more_bytes xs) s,
        (read_one (length xs) x (more_bytes xs ++ s) hx (more_bytes_end xs s e)).0,
      )
      (ap (λ t. x ∷ t) (read_bytes-more xs s h e))

skip_blanks_digits : (d s : Bytes) → d ≢ [] → AllDigits d → skip_blanks (d ++ s) ≡ d ++ s
unfolding skip_blanks
skip_blanks_digits [] s h k = absurd (h refl)
skip_blanks_digits (c ∷ d) s h k = ground arith

json_find_key-found :
    (json key s : Bytes)
    → strstr (pattern_of key) json ≡ some (pattern_of key ++ s)
    → json_find_key json key ≡ some (skip_blanks s)
unfolding json_find_key
json_find_key-found json key s found =
    rw (found, json_find_key) (rw (drop-append (pattern_of key) s))

-- A number behind its key.
pub json_get_u64-found :
    (json key s : Bytes) (n : ℕ)
    → strstr (pattern_of key) json ≡ some (pattern_of key ++ (decimal n ++ s))
    → n < 2 ^ 64
    → Ends s
    → json_get_u64 json key ≡ some n
unfolding json_get_u64
json_get_u64-found json key s n found small e =
    rw (json_find_key-found json key (decimal n ++ s) found, json_get_u64)
      (rw (
        skip_blanks_digits (decimal n) s (decimal-ne-nil n) (decimal-AllDigits n),
        strtoull-decimal n s small e,
      ))

-- An array of sixteen bytes behind its key.
pub json_get_bytes16-found :
    (json key s xs : Bytes)
    → strstr (pattern_of key) json ≡ some (pattern_of key ++ (b'[' ∷ array_bytes xs ++ s))
    → All IsByte xs
    → length xs ≡ 16
    → Ends s
    → json_get_bytes16 json key ≡ some xs
unfolding json_get_bytes16 skip_blanks
json_get_bytes16-found json key s xs found small len e =
    rw (json_find_key-found json key (b'[' ∷ array_bytes xs ++ s) found, json_get_bytes16)
      (ap some
        (ap (λ n. read_bytes n (array_bytes xs ++ s)) (sym len) ∙ read_bytes-array xs s small e))
