-- ===== src/Multipart/Plan/Bounds.antt =====
-- Where the parts lie, how long they are, and when there is none.
use native.Mathlib.Nat.{div-add-mod'}
use storefs.Prelude.{ℕ, zero, suc, ◌+◌, ◌-◌, ◌*◌, ◌/◌, ◌^◌, ◌≤◌, ◌<◌, ◌≡◌, ◌⊎◌, [], arith, All}
use storefs.Prelude.Int.{pos}
use storefs.Multipart.Plan.{Slice, slice, slices, num_parts, chosen}
use storefs.Multipart.Plan.Tiling.{num_parts-pos}

-- A part of the file: not empty, at its number's place, within the file, and of the full size
-- unless it ends the file.
abbrev pub InFile : (file_size part_size : ℕ) → Slice → Type 0
InFile file_size part_size s =
    (0 < s.len)
    × (s.len ≤ part_size)
    × (s.offset ≡ (s.number - 1) * part_size)
    × (s.offset + s.len ≤ file_size)
    × ((s.len ≡ part_size) ⊎ (s.offset + s.len ≡ file_size))

slice-InFile : (fs ps k : ℕ) → 0 < ps → k * ps < fs → InFile fs ps (slice fs ps (suc k))
unfolding slice
slice-InFile fs ps k h l = let e : suc k - 1 ≡ k = omega arith in rw e (ground arith)

slices-InFile :
    (fs ps rounds k : ℕ)
    → 0 < ps
    → (k + rounds) * ps < fs + ps
    → All (InFile fs ps) (slices fs ps rounds (suc k))
unfolding slices
slices-InFile fs ps zero k h l = tt
slices-InFile fs ps (suc rounds) k h l = (
  slice-InFile fs ps k h (grind arith),
  let e : suc k + 1 ≡ suc (suc k) = omega arith in
      rw e (slices-InFile fs ps rounds (suc k) h (grind arith)),
)

parts_fit : (fs ps : ℕ) → 0 < ps → 0 < fs → (fs + ps - 1) / ps * ps < fs + ps
parts_fit fs ps h k = grind (arith, div-add-mod')

-- Every slice that is uploaded, all of them for part 0 or the one that `-part` names, lies at its
-- number's place in the file, is not empty, does not pass the end, and is a full part unless it ends
-- the file: for a file and a part size that are not zero, whose sum is at most 2^63, with less than
-- 2^31 parts, and a part that is not above their number.
pub chosen-InFile :
    (fs ps part : ℕ)
    → 0 < fs
    → 0 < ps
    → fs + ps ≤ 2 ^ 63
    → (fs + ps - 1) / ps < 2 ^ 31
    → part ≤ (fs + ps - 1) / ps
    → All (InFile fs ps) (chosen fs ps part)
unfolding chosen
chosen-InFile fs ps zero f h k l m =
    rw (num_parts-pos fs ps h k l)
      (slices-InFile fs ps ((fs + ps - 1) / ps) 0 h (grind (arith, parts_fit)))
chosen-InFile fs ps (suc j) f h k l m =
    slices-InFile fs ps 1 j h (grind (arith, parts_fit fs ps h f))

num_parts-overflow : (fs : ℕ) → 4 ≤ fs → fs < 2 ^ 63 → num_parts fs (2 ^ 63 - 1) ≡ pos 0
unfolding num_parts
num_parts-overflow fs h k = ground arith

-- With the part size 2^63 - 1, a file of four or more bytes has no part at all: nothing of it would be
-- uploaded.
pub chosen-overflow : (fs : ℕ) → 4 ≤ fs → fs < 2 ^ 63 → chosen fs (2 ^ 63 - 1) 0 ≡ []
unfolding chosen slices
chosen-overflow fs h k = rw (num_parts-overflow fs h k)
