-- ===== src/Client/Size.antt =====
-- The size of an object, as `s3_head_object` of examples/rdma/c/s3client.c reads it from the headers.
use storefs.Prelude.{
  ap, ℕ, ◌≡◌, ◌<◌, ◌^◌, refl, List, [], ◌∷◌, ◌++◌, arith, length, ltb, true, false, All, ◌∙◌,
}
use storefs.Prelude.Int.{ℤ, pos}
use storefs.Prelude.Text.{Bytes, codes, starts_with}
use storefs.Prelude.Decimal.{decimal, atoll, atoll-decimal, skip_space}
use storefs.Sign.{to_lower}
use storefs.Client.{header_cb, header_lines}

-- A line of a length.
abbrev pub length_line : ℕ → Bytes
length_line n = codes "Content-Length: " ++ (decimal n ++ codes "\r\n")

-- A line with another name.
abbrev pub OtherLine : Bytes → Type 0
OtherLine line = starts_with (codes "content-length:") (to_lower line) ≡ false

long_enough : (n : ℕ) → ltb 15 (length (length_line n)) ≡ true
long_enough n = ground arith

named : (n : ℕ) → starts_with (codes "content-length:") (to_lower (length_line n)) ≡ true
unfolding starts_with to_lower
named n = refl

blank_lem : (s : Bytes) → atoll (32 ∷ s) ≡ atoll s
unfolding atoll skip_space
blank_lem s = refl

header_cb-length_line : (n : ℕ) (len : ℤ) → n < 2 ^ 63 → header_cb (length_line n) len ≡ pos n
unfolding header_cb
header_cb-length_line n len h =
    rw (header_cb, long_enough n, named n)
      (blank_lem (decimal n ++ codes "\r\n") ∙ atoll-decimal n (codes "\r\n") h refl)

other_lem : (line : Bytes) (len : ℤ) → OtherLine line → header_cb line len ≡ len
unfolding header_cb
other_lem line len h = rw (header_cb, h) (ground arith)

others_lem : (lines : List Bytes) (len : ℤ) → All OtherLine lines → header_lines lines len ≡ len
unfolding header_lines
others_lem [] len h = refl
others_lem (line ∷ rest) len (h, k) = rw (other_lem line len h) (others_lem rest len k)

-- The size of an object is what the last line of a length says, whatever the lines in front of it say:
-- a length below 2^63, and no line behind it of that name in any case of letters.
pub header_lines-length_line :
    (before : List Bytes) (n : ℕ) (after : List Bytes) (len : ℤ)
    → n < 2 ^ 63
    → All OtherLine after
    → header_lines (before ++ (length_line n ∷ after)) len ≡ pos n
unfolding header_lines
header_lines-length_line [] n after len h k =
    ap (header_lines after) (header_cb-length_line n len h) ∙ others_lem after (pos n) k
header_lines-length_line (line ∷ before) n after len h k =
    header_lines-length_line before n after (header_cb line len) h k
