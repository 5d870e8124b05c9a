-- ===== src/Multipart/Xml/RoundTrip.antt =====
-- `parse_parts` on the texts that `s3_complete_multipart` makes.
use storefs.Prelude.{
  ℕ, zero, suc, ◌+◌, ◌-◌, ◌^◌, ◌≤◌, ◌<◌, ◌≡◌, ◌≢◌, refl, sym, ap, ap₂, ◌∙◌, none, some, List, [],
  ◌∷◌, ◌++◌, map, append_assoc, arith, length, length-append, take, take-append, All,
}
use storefs.Prelude.Int.{ℤ, pos}
use storefs.Prelude.Text.{Bytes, codes, Lacks, strstr}
use storefs.Prelude.Decimal.{decimal, length-decimal}
use storefs.Multipart.Xml.{
  CompletedPart, parse_loop, parse_parts, part_xml, parts_xml, complete_text, etag_or_quotes,
  size_of,
}
use storefs.Multipart.Xml.Blocks.{
  behind_etag, behind_num, block, past_num, past_etag, parse_block_lem,
}

-- A part that a listing can hold: its number is an `int` that is not negative, and its ETag is not
-- empty, fits its buffer and opens no tag.
pub record Plain (p : CompletedPart) : Type 0 where
  pub number : ℕ
  pub is_number : p.part_number ≡ pos number
  pub in_range : number < 2 ^ 31
  pub ne_nil : p.etag ≢ []
  pub opens_no_tag : Lacks b'<' p.etag
  pub fits : length p.etag < 255

or_quotes_lem : (s : Bytes) → s ≢ [] → etag_or_quotes s ≡ s
or_quotes_lem [] h = absurd (h refl)
or_quotes_lem (c ∷ s) h = refl

part_xml-block :
    (p : CompletedPart) (w : Plain p) → part_xml p ≡ block w.number p.etag w.opens_no_tag
unfolding part_xml
part_xml-block p w = rw (w.is_number, or_quotes_lem p.etag w.ne_nil)

module _ (n : ℕ) (etag : Bytes) (plain : Lacks b'<' etag) (rest : Bytes) where
  abbrev text : Bytes
  text = block n etag plain ++ rest

  close_found : strstr (codes "</Part>") text ≡ some (codes "</Part>" ++ rest)
  unfolding strstr
  close_found = rw (
    append_assoc (decimal n) (behind_num n etag plain) rest,
    past_num n etag plain (codes "/Part>") (behind_num n etag plain ++ rest),
    append_assoc etag (behind_etag n etag plain) rest,
    past_etag n etag plain (codes "/Part>") (behind_etag n etag plain ++ rest),
  )

  block_taken : take (length text - length (codes "</Part>" ++ rest) + 7) text ≡ block n etag plain
  block_taken =
      let all = length-append (block n etag plain) rest in
      let e : length text - length (codes "</Part>" ++ rest) + 7 ≡ length (block n etag plain) =
        omega (arith, all) in
      rw e (take-append (block n etag plain) rest)

  -- One round of the loop.
  round :
      (fuel count : ℕ) (p : Bytes)
      → strstr (codes "<Part>") p ≡ some text
      → n < 2 ^ 31
      → length etag < 256
      → parse_loop (suc fuel) count p
        ≡ record { part_number = pos n; etag = etag; size = size_of count none }
          ∷ parse_loop fuel (count + 1) rest
  unfolding parse_loop
  round fuel count p found small fits =
      rw (found, parse_loop)
        (rw (
          close_found,
          block_taken,
          parse_block_lem n etag plain count (omega (arith, length-decimal 9 n (omega arith))) small
              fits,
        ))

pub key : CompletedPart → ℤ × Bytes
key p = (p.part_number, p.etag)

-- What the loop starts from behind the opening tag: the first part, or the closing tag.
opened : (ps : List CompletedPart) → Bytes
opened ps = parts_xml ps ++ codes "</CompleteMultipartUpload>"

opened-cons :
    (p : CompletedPart) (ps : List CompletedPart) (w : Plain p)
    → opened (p ∷ ps) ≡ block w.number p.etag w.opens_no_tag ++ opened ps
unfolding opened parts_xml
opened-cons p ps w =
    append_assoc (part_xml p) (parts_xml ps) (codes "</CompleteMultipartUpload>")
    ∙ ap (λ x. x ++ (parts_xml ps ++ codes "</CompleteMultipartUpload>")) (part_xml-block p w)

-- The first opening tag of a part stands in front of a block, also behind the outer tag.
starts_here :
    (n : ℕ) (etag rest : Bytes) (plain : Lacks b'<' etag)
    → strstr (codes "<Part>") (block n etag plain ++ rest) ≡ some (block n etag plain ++ rest)
unfolding strstr
starts_here n etag rest plain = refl

parse_loop-opened :
    (ps : List CompletedPart) (fuel count : ℕ)
    → All Plain ps
    → length ps < fuel
    → map key (parse_loop fuel count (opened ps)) ≡ map key ps
unfolding key
parse_loop-opened [] zero count h l = absurd (omega arith)
parse_loop-opened [] (suc fuel) count h l = unfold opened parts_xml parse_loop strstr in refl
parse_loop-opened (p ∷ ps) zero count h l = absurd (omega arith)
parse_loop-opened (p ∷ ps) (suc fuel) count (w, h) l =
    rw
      (
        opened-cons p ps w,
        round w.number p.etag w.opens_no_tag (opened ps) fuel count _
            (starts_here w.number p.etag (opened ps) w.opens_no_tag) w.in_range
            (omega (arith, w.fits)),
      )
      (ap₂ (λ a b. (a, p.etag) ∷ b) (sym w.is_number)
        (parse_loop-opened ps fuel (count + 1) h (omega arith)))

outer : Bytes
outer = codes "<CompleteMultipartUpload>"

-- The first search goes past the outer tag.
past_outer :
    (fuel count : ℕ) (s : Bytes) → parse_loop fuel count (outer ++ s) ≡ parse_loop fuel count s
unfolding outer parse_loop strstr
past_outer zero count s = refl
past_outer (suc fuel) count s = refl

length-opened : (ps : List CompletedPart) → All Plain ps → length ps ≤ length (opened ps)
length-opened [] h = omega arith
length-opened (p ∷ ps) (w, h) = omega (
  arith,
  ap length (opened-cons p ps w),
  length-append (block w.number p.etag w.opens_no_tag) (opened ps),
  length-opened ps h,
)

complete_text-outer : (ps : List CompletedPart) → complete_text ps ≡ outer ++ opened ps
unfolding complete_text outer opened
complete_text-outer ps = refl

-- `parse_parts` reads, in the text of a completion, the numbers and the ETags of exactly the parts that
-- the text was made of, in their order: for parts with a number from 0 to 2^31 - 1 and an ETag of 1 to
-- 254 bytes without `<`.
pub parse_parts-complete_text :
    (ps : List CompletedPart) → All Plain ps → map key (parse_parts (complete_text ps)) ≡ map key ps
unfolding parse_parts
parse_parts-complete_text ps h =
    rw (complete_text-outer ps, past_outer (suc (length (outer ++ opened ps))) 0 (opened ps))
      (parse_loop-opened ps (suc (length (outer ++ opened ps))) 0 h
        (omega (arith, length-append outer (opened ps), length-opened ps h)))
