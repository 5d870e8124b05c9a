-- ===== src/Prelude/Buffers.antt =====
-- Texts that are put together in a buffer.
use Prim.Native.Nat.{ℕ, ◌+◌, ◌-◌, ◌<◌}
use mathlib.Core.Path.{◌≡◌, ◌∙◌, ap, sym}
use mathlib.Core.Bool.{false}
use mathlib.Core.List.{List, [], ◌∷◌, ◌++◌, append_assoc, append-nil}
use mathlib.Core.Option.{some}
use native.Mathlib.Omega.{arith}
use storefs.Prelude.Tests.{ltb}
use storefs.Prelude.Lists.{length, concat, length-append, take_all}
use storefs.Prelude.Text.{Bytes, appended, printed}

pub printed_all : (size : ℕ) (s : Bytes) → length s < size → printed size s ≡ s
printed_all size s h = take_all (size - 1) s (omega arith)

-- What fits is there whole.
pub appended_all :
    (size : ℕ) (text : Bytes) (ss : List Bytes)
    → length text + length (concat ss) < size
    → appended size text ss ≡ some (text ++ concat ss)
unfolding appended
appended_all size text [] h = ap some (printed_all size text (omega arith) ∙ sym (append-nil text))
appended_all size text (s ∷ ss) h =
    let room : ltb size (length text) ≡ false = ground arith in
    rw room (
      appended_all size (text ++ s) ss
        (omega (arith, length-append text s, length-append s (concat ss)))
      ∙ ap some (append_assoc text s (concat ss)))
