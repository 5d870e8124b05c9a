-- ===== src/Multipart/Xml.antt =====
-- The XML that examples/rdma/c/s3rdmamultipart.c reads and writes: `find_tag_text`, `parse_upload_id`,
-- `parse_parts` and the body of `s3_complete_multipart`.
pub mod Blocks
pub mod Capacity
pub mod RoundTrip
use storefs.Prelude.{
  ℕ, zero, suc, ◌+◌, ◌-◌, ◌*◌, Option, none, some, List, [], ◌∷◌, ◌++◌, length, take, drop, ltb,
  leb, if◌then◌else◌,
}
use storefs.Prelude.Int.{ℤ, pos}
use storefs.Prelude.Text.{Bytes, codes, strstr, before, printed}
use storefs.Prelude.Decimal.{atoi, atoll, signed_decimal}

-- `completed_part_t`; the size is `none` where the program leaves it without a value.
pub record CompletedPart : Type 0 where
  pub part_number : ℤ
  pub etag : Bytes
  pub size : Option ℤ

abbrev open_tag : Bytes → Bytes
open_tag tag = printed 64 (b'<' ∷ tag ++ (b'>' ∷ []))

abbrev close_tag : Bytes → Bytes
close_tag tag = printed 64 (b'<' ∷ b'/' ∷ tag ++ (b'>' ∷ []))

-- `if (n >= outlen) n = outlen - 1;`
abbrev clipped : ℕ → Bytes → Bytes
clipped outlen s = if leb outlen (length s) then take (outlen - 1) s else s

-- The text between the first opening tag and the first closing tag behind it, as far as it fits.
unfoldable pub find_tag_text : Bytes → Bytes → ℕ → Option Bytes
find_tag_text xml tag outlen = elim (strstr (open_tag tag) xml) [
  | none ↦ none
  | some at ↦
      let p = drop (length (open_tag tag)) at in
      elim (strstr (close_tag tag) p) [ none ↦ none | some q ↦ some (clipped outlen (before p q)) ]
]

unfoldable pub parse_upload_id : Bytes → ℕ → Option Bytes
unfolding find_tag_text
parse_upload_id xml upload_id_len = find_tag_text xml (codes "UploadId") upload_id_len

-- `calloc` clears the first eight parts; `realloc` leaves those behind them as they are.
abbrev size_of : ℕ → Option Bytes → Option ℤ
size_of count (some sizebuf) = some (atoll sizebuf)
size_of count none = if ltb count 8 then some (pos 0) else none

-- An ETag of 255 bytes behind the eighth part is stored without its NUL, in memory that `realloc` does
-- not clear; the model takes that byte as 0. What is stored at index `count` for a block that has a number and an ETag.
unfoldable pub parse_block : ℕ → Bytes → Option CompletedPart
parse_block count block = elim (find_tag_text block (codes "PartNumber") 32) [
  | none ↦ none
  | some num ↦ elim (find_tag_text block (codes "ETag") 256) [
    | none ↦ none
    | some etag ↦ some (record {
      part_number = atoi num;
      etag = take 255 etag;
      size = size_of count (find_tag_text block (codes "Size") 64);
    })
  ]
]

-- The loop over the blocks; each round goes on behind the block that it read.
unfoldable pub parse_loop : ℕ → ℕ → Bytes → List CompletedPart
parse_loop zero count p = []
parse_loop (suc fuel) count p = elim (strstr (codes "<Part>") p) [
  | none ↦ []
  | some p ↦ elim (strstr (codes "</Part>") p) [
    | none ↦ []
    | some end ↦ elim (parse_block count (take (length p - length end + 7) p)) [
      | none ↦ parse_loop fuel count (drop 7 end)
      | some part ↦ part ∷ parse_loop fuel (count + 1) (drop 7 end)
    ]
  ]
]

-- A round takes at least one byte, so one more round than there are bytes is enough.
unfoldable pub parse_parts : Bytes → List CompletedPart
unfolding parse_loop
parse_parts xml = parse_loop (suc (length xml)) 0 xml

-- `etag[0] ? etag : "\"\""`
abbrev etag_or_quotes : Bytes → Bytes
etag_or_quotes [] = b'"' ∷ b'"' ∷ []
etag_or_quotes (c ∷ s) = c ∷ s

pub part_xml : CompletedPart → Bytes
part_xml p =
    codes "<Part><PartNumber>"
    ++ (signed_decimal p.part_number
        ++ (codes "</PartNumber><ETag>" ++ (etag_or_quotes p.etag ++ codes "</ETag></Part>")))

pub parts_xml : List CompletedPart → Bytes
parts_xml [] = []
parts_xml (p ∷ ps) = part_xml p ++ parts_xml ps

-- The body that `s3_complete_multipart` sends, before it is cut to the size of its buffer.
pub complete_text : List CompletedPart → Bytes
complete_text ps =
    codes "<CompleteMultipartUpload>" ++ (parts_xml ps ++ codes "</CompleteMultipartUpload>")

pub complete_body : List CompletedPart → Bytes
unfolding complete_text parts_xml part_xml
complete_body ps = printed (256 + length ps * 384) (complete_text ps)
