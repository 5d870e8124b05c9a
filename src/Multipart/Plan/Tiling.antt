-- ===== src/Multipart/Plan/Tiling.antt =====
-- What the slices of a plan take of the file.
use native.Mathlib.Nat.{div-add-mod', mod-lt}
use storefs.Prelude.{
  ℕ, zero, suc, ◌+◌, ◌-◌, ◌*◌, ◌/◌, ◌%◌, ◌^◌, ◌≤◌, ◌<◌, ◌≡◌, refl, sym, ap, ◌∙◌, List, [], ◌∷◌,
  ◌++◌, arith, length, length-drop, take, drop, drop-drop, take_all, ltb, ltb→lt, Bool-cases, inl,
  inr, if◌then◌else◌,
}
use storefs.Prelude.Int.{pos, int64, wrap_small, wrap64_small}
use storefs.Prelude.Text.{Bytes}
use storefs.Multipart.Plan.{Slice, slice, slices, num_parts, chosen}

-- What a slice takes of the file.
pub cut : Bytes → Slice → Bytes
cut file s = take s.len (drop s.offset file)

pub joined : Bytes → List Slice → Bytes
unfolding cut
joined file [] = []
joined file (s ∷ ss) = cut file s ++ joined file ss

take-add : (m n : ℕ) (xs : Bytes) → take (m + n) xs ≡ take m xs ++ take n (drop m xs)
take-add zero n xs = let e : 0 + n ≡ n = omega arith in rw e
take-add (suc m) n [] = let e : suc m + n ≡ suc (m + n) = omega arith in rw e (take_nil n)
  where
    take_nil : (k : ℕ) → [] ≡ take {A = ℕ} k []
    take_nil zero = refl
    take_nil (suc k) = refl
take-add (suc m) n (x ∷ xs) =
    let e : suc m + n ≡ suc (m + n) = omega arith in rw e (ap (λ t. x ∷ t) (take-add m n xs))

-- A slice cut short at the end of the file is the whole of what is left.
cut_short :
    (xs : Bytes) (left ps : ℕ)
    → left ≡ length xs
    → take (if ltb left ps then left else ps) xs ≡ take ps xs
cut_short xs left ps e = elim (Bool-cases (ltb left ps)) [
  | inl short ↦
      rw short (
        take_all left xs (omega arith) ∙ sym (take_all ps xs (omega (arith, ltb→lt left ps short))))
  | inr full ↦ rw full
]

cut-take :
    (file : Bytes) (ps k : ℕ)
    → cut file (slice (length file) ps (suc k)) ≡ take ps (drop (k * ps) file)
unfolding cut slice
cut-take file ps k =
    let e : suc k - 1 ≡ k = omega arith in
    rw e
      (cut_short (drop (k * ps) file) (length file - k * ps) ps (sym (length-drop (k * ps) file)))

joined-slices :
    (file : Bytes) (ps rounds k : ℕ)
    → joined file (slices (length file) ps rounds (suc k)) ≡ take (rounds * ps) (drop (k * ps) file)
unfolding joined slices
joined-slices file ps zero k = let e : 0 * ps ≡ 0 = omega arith in rw e
joined-slices file ps (suc rounds) k =
    let n : suc k + 1 ≡ suc (suc k) = omega arith in
    let m : suc rounds * ps ≡ ps + rounds * ps = omega arith in
    let j : suc k * ps ≡ k * ps + ps = omega arith in
    rw (
      n,
      m,
      cut-take file ps k,
      joined-slices file ps rounds (suc k),
      j,
      take-add ps (rounds * ps) (drop (k * ps) file),
      drop-drop ps (k * ps) file,
    )

-- The number of parts is the size over the part size, rounded up, where neither the sum nor the
-- count leaves its type.
pub num_parts-pos :
    (fs ps : ℕ)
    → 0 < ps
    → fs + ps ≤ 2 ^ 63
    → (fs + ps - 1) / ps < 2 ^ 31
    → num_parts fs ps ≡ pos ((fs + ps - 1) / ps)
unfolding num_parts
num_parts-pos fs ps h k l =
    let small : int64 (fs + ps - 1) ≡ pos (fs + ps - 1) =
      wrap64_small (fs + ps - 1) (omega arith) in
    let kept : (fs + ps - 1) / ps % 2 ^ 64 ≡ (fs + ps - 1) / ps = omega arith in
    rw (small, kept) (wrap_small ((fs + ps - 1) / ps) l)

-- The last part reaches the end of the file.
covers : (fs ps : ℕ) → 0 < ps → fs ≤ (fs + ps - 1) / ps * ps
covers fs ps h = grind (arith, div-add-mod', mod-lt)

-- The slices of the whole upload, put one behind the other in their order, are the file: for a file and a part size
-- that are not zero, whose sum is at most 2^63, with less than 2^31 parts.
pub joined-chosen :
    (file : Bytes) (ps : ℕ)
    → 0 < ps
    → length file + ps ≤ 2 ^ 63
    → (length file + ps - 1) / ps < 2 ^ 31
    → joined file (chosen (length file) ps 0) ≡ file
unfolding chosen
joined-chosen file ps h k l =
    let n : ℕ = (length file + ps - 1) / ps in
    let z : 0 * ps ≡ 0 = omega arith in
    rw (num_parts-pos (length file) ps h k l)
      (joined-slices file ps n 0 ∙ rw z (take_all (n * ps) file (covers (length file) ps h)))
