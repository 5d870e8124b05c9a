-- ===== src/Prelude/Search.antt =====
-- Where `strstr` and `strchr` find what they look for.
use Prim.Native.Nat.{ℕ, ◌-◌}
use mathlib.Core.Path.{◌≡◌, refl, ◌∙◌}
use mathlib.Core.Bool.{true}
use mathlib.Core.List.{[], ◌∷◌, ◌++◌}
use mathlib.Core.Option.{none, some}
use native.Mathlib.Omega.{arith}
use storefs.Prelude.Lists.{length, length-append, take-append}
use storefs.Prelude.Text.{Bytes, Lacks, starts_with, same_text, strstr, strchr, before, c_string}

pub starts_with-append : (xs s : Bytes) → starts_with xs (xs ++ s) ≡ true
unfolding starts_with
starts_with-append [] s = refl
starts_with-append (x ∷ xs) s = ground (arith, starts_with-append xs s)

pub starts_with-same : (xs ys s : Bytes) → starts_with (xs ++ ys) (xs ++ s) ≡ starts_with ys s
unfolding starts_with
starts_with-same [] ys s = refl
starts_with-same (x ∷ xs) ys s = ground (arith, starts_with-same xs ys s)

pub strstr_here : (xs s : Bytes) → strstr xs (xs ++ s) ≡ some (xs ++ s)
unfolding strstr
strstr_here [] [] = refl
strstr_here [] (c ∷ s) = refl
strstr_here (x ∷ xs) s = ground (arith, starts_with-append xs s)

-- A search goes past text that lacks the first byte of what it looks for.
pub strstr_past :
    (x : ℕ) (xs front s : Bytes) → Lacks x front → strstr (x ∷ xs) (front ++ s) ≡ strstr (x ∷ xs) s
unfolding strstr
strstr_past x xs [] s h = refl
strstr_past x xs (c ∷ front) s (hc, h) = ground (arith, strstr_past x xs front s h)

pub strstr_found :
    (x : ℕ) (xs front s : Bytes)
    → Lacks x front
    → strstr (x ∷ xs) (front ++ (x ∷ xs ++ s)) ≡ some (x ∷ xs ++ s)
strstr_found x xs front s h = strstr_past x xs front (x ∷ xs ++ s) h ∙ strstr_here (x ∷ xs) s

pub strchr_found :
    (c : ℕ) (front s : Bytes) → Lacks c front → strchr c (front ++ c ∷ s) ≡ some (c ∷ s)
unfolding strchr
strchr_found c [] s h = ground arith
strchr_found c (x ∷ front) s (hx, h) = ground (arith, strchr_found c front s h)

pub strchr-none : (c : ℕ) (s : Bytes) → Lacks c s → strchr c s ≡ none
unfolding strchr
strchr-none c [] h = refl
strchr-none c (x ∷ s) (hx, h) = ground (arith, strchr-none c s h)

pub before-append : (front s : Bytes) → before (front ++ s) s ≡ front
before-append front s =
    let e : length (front ++ s) - length s ≡ length front = omega (arith, length-append front s) in
    rw e (take-append front s)

pub c_string_lem : (s : Bytes) → Lacks 0 s → c_string s ≡ s
unfolding c_string
c_string_lem [] h = refl
c_string_lem (c ∷ s) (hc, h) = ground (arith, c_string_lem s h)

pub same_text_iff : (a b : Bytes) → same_text a b ≡ true → a ≡ b
unfolding same_text
same_text_iff [] [] h = refl
same_text_iff [] (c ∷ s) h = cc
same_text_iff (x ∷ xs) [] h = cc
same_text_iff (x ∷ xs) (c ∷ s) h = ground (arith, same_text_iff xs s)

pub same_text_refl : (a : Bytes) → same_text a a ≡ true
unfolding same_text
same_text_refl [] = refl
same_text_refl (x ∷ xs) = ground (arith, same_text_refl xs)

module _ (c : ℕ) where
  pub Lacks-append : (xs ys : Bytes) → Lacks c xs → Lacks c ys → Lacks c (xs ++ ys)
  Lacks-append [] ys h k = k
  Lacks-append (x ∷ xs) ys (hx, h) k = (hx, Lacks-append xs ys h k)
