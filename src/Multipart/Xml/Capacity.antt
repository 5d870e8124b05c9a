-- ===== src/Multipart/Xml/Capacity.antt =====
-- The body of `s3_complete_multipart`, and the size of its buffer.
use storefs.Prelude.{
  suc, ◌+◌, ◌-◌, ◌*◌, ◌^◌, ◌≤◌, ◌<◌, ◌≡◌, List, [], ◌∷◌, ◌++◌, arith, length, length-append,
  take_all, All,
}
use storefs.Prelude.Int.{ℤ, pos, negsuc}
use storefs.Prelude.Text.{Bytes, codes}
use storefs.Prelude.Decimal.{signed_decimal, length-decimal}
use storefs.Multipart.Xml.{
  CompletedPart, etag_or_quotes, part_xml, parts_xml, complete_text, complete_body,
}

-- The values of `int`.
abbrev pub IsInt : ℤ → Type 0
IsInt (pos n) = n < 2 ^ 31
IsInt (negsuc n) = n < 2 ^ 31

-- What a `completed_part_t` can hold.
abbrev pub Stored : CompletedPart → Type 0
Stored p = IsInt p.part_number × (length p.etag < 256)

length-signed_decimal : (z : ℤ) → IsInt z → length (signed_decimal z) ≤ 11
length-signed_decimal (pos n) h = omega (arith, length-decimal 9 n (omega arith))
length-signed_decimal (negsuc n) h = omega (arith, length-decimal 9 (suc n) (omega arith))

length-etag_or_quotes : (s : Bytes) → length s < 256 → length (etag_or_quotes s) ≤ 255
length-etag_or_quotes [] h = omega arith
length-etag_or_quotes (c ∷ s) h = omega arith

length-part_xml : (p : CompletedPart) → Stored p → length (part_xml p) ≤ 384
unfolding part_xml
length-part_xml p (h, k) = omega (
  arith,
  length-append (signed_decimal p.part_number)
      (codes "</PartNumber><ETag>" ++ (etag_or_quotes p.etag ++ codes "</ETag></Part>")),
  length-append (etag_or_quotes p.etag) (codes "</ETag></Part>"),
  length-signed_decimal p.part_number h,
  length-etag_or_quotes p.etag k,
)

length-parts_xml :
    (ps : List CompletedPart) → All Stored ps → length (parts_xml ps) ≤ length ps * 384
unfolding parts_xml
length-parts_xml [] h = omega arith
length-parts_xml (p ∷ ps) (hp, h) =
    omega (
      arith,
      length-append (part_xml p) (parts_xml ps),
      length-part_xml p hp,
      length-parts_xml ps h,
    )

length-complete_text :
    (ps : List CompletedPart)
    → All Stored ps
    → length (complete_text ps) ≤ 256 + length ps * 384 - 1
unfolding complete_text
length-complete_text ps h = omega (
  arith,
  length-append (parts_xml ps) (codes "</CompleteMultipartUpload>"),
  length-parts_xml ps h,
)

-- The body of a completion is not cut by the size of its buffer: for any list of parts whose numbers
-- are values of `int` and whose ETags have fewer than 256 bytes.
pub complete_body-complete_text :
    (ps : List CompletedPart) → All Stored ps → complete_body ps ≡ complete_text ps
unfolding complete_body
complete_body-complete_text ps h =
    take_all (256 + length ps * 384 - 1) (complete_text ps) (length-complete_text ps h)
