-- ===== src/Multipart/Plan.antt =====
-- Which parts of the file `upload_parts_rdma` of examples/rdma/c/s3rdmamultipart.c uploads: how many
-- there are, the loop over them, and each part's place in the file.
pub mod Bounds
pub mod Tiling
use storefs.Prelude.{
  ℕ, zero, suc, ◌+◌, ◌-◌, ◌*◌, Bool, true, false, ◌||◌, List, [], ◌∷◌, ltb, ◌==◌, if◌then◌else◌,
}
use storefs.Prelude.Int.{ℤ, pos, negsuc, wrap, bits, int64, div_ℤ, is_neg}
use storefs.Multipart.Xml.{CompletedPart}
use storefs.Os.{Error, empty_file, part_out_of_range, Prog, pure, fail, ◌>>=◌, when◌then◌else◌}

-- `(int)((file_size + part_size - 1) / part_size)`. The sum wraps where it passes the range of
-- `long long`, which C leaves undefined and the compilers do.
unfoldable pub num_parts : (file_size part_size : ℕ) → ℤ
num_parts file_size part_size =
    wrap 32 (bits 64 (div_ℤ (int64 (file_size + part_size - 1)) part_size))

-- What one round of the loop uploads.
pub record Slice : Type 0 where
  pub number : ℕ
  pub offset : ℕ
  pub len : ℕ

unfoldable pub slice : (file_size part_size number : ℕ) → Slice
slice file_size part_size number =
    let offset = (number - 1) * part_size in
    record {
      number = number;
      offset = offset;
      len = if ltb (file_size - offset) part_size then file_size - offset else part_size;
    }

-- `rounds` rounds of the loop, from part `number` on.
unfoldable pub slices : (file_size part_size rounds number : ℕ) → List Slice
slices file_size part_size zero number = []
slices file_size part_size (suc rounds) number =
    slice file_size part_size number ∷ slices file_size part_size rounds (number + 1)

-- `n < m` on the values of `int`, for an `n` that is not negative
abbrev pub int_lt : ℤ → ℕ → Bool
int_lt (pos n) m = ltb n m
int_lt (negsuc n) m = true

-- `count = end - start + 1` rounds; none if that is not positive.
abbrev all_rounds : ℤ → ℕ
all_rounds (pos n) = n
all_rounds (negsuc n) = 0

-- The slices of the whole file for part 0, and else that of the one part.
unfoldable pub chosen : (file_size part_size : ℕ) → ℕ → List Slice
unfolding slices slice num_parts
chosen file_size part_size zero =
    slices file_size part_size (all_rounds (num_parts file_size part_size)) 1
chosen file_size part_size (suc k) = slices file_size part_size 1 (suc k)

-- The slices to upload, of a file that is not empty and for a part that it has.
unfoldable pub check_part : {S : Type 0} (file_size part_size : ℕ) → ℤ → Prog S (List Slice)
unfolding chosen
check_part file_size part_size (negsuc k) =
    when file_size == 0 then fail empty_file else fail part_out_of_range
check_part file_size part_size (pos part) =
    when file_size == 0
    then fail empty_file
    else when int_lt (num_parts file_size part_size) part
    then fail part_out_of_range
    else pure (chosen file_size part_size part)

module _ {S : Type 0} (upload_one : Slice → Prog S CompletedPart) where
  -- The loop stops at the first part that fails.
  unfoldable pub upload_loop : List Slice → Prog S (List CompletedPart)
  upload_loop [] = pure []
  upload_loop (s ∷ ss) = do part ← upload_one s; parts ← upload_loop ss; pure (part ∷ parts)
