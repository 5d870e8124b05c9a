-- ===== src/Tests/Plans.antt =====
-- The plan of an upload at concrete sizes.
use storefs.Prelude.Text.{Bytes, codes}
use storefs.Prelude.{◌-◌, ◌^◌, ◌≡◌, [], All, arith, length}
use storefs.Multipart.Plan.{chosen}
use storefs.Multipart.Plan.Tiling.{joined, joined-chosen}
use storefs.Multipart.Plan.Bounds.{InFile, chosen-InFile, chosen-overflow}

abbrev file : Bytes
file = codes "a file of twenty-six bytes"

joined-chosen_example : joined file (chosen (length file) 8 0) ≡ file
joined-chosen_example = joined-chosen file 8 (omega arith) (omega arith) (omega arith)

chosen-InFile_example : All (InFile 26 8) (chosen 26 8 4)
chosen-InFile_example =
    chosen-InFile 26 8 4 (omega arith) (omega arith) (omega arith) (omega arith) (omega arith)

chosen-overflow_example : chosen 26 (2 ^ 63 - 1) 0 ≡ []
chosen-overflow_example = chosen-overflow 26 (omega arith) (omega arith)
