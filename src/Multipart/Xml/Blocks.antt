-- ===== src/Multipart/Xml/Blocks.antt =====
-- One part, written and read.
use storefs.Prelude.{
  ℕ, ◌^◌, ◌<◌, ◌≡◌, refl, sym, ap, ◌∙◌, inr, Option, none, some, [], ◌∷◌, ◌++◌, append-nil,
  take_all, arith, length, drop-append,
}
use storefs.Prelude.Int.{pos}
use storefs.Prelude.Text.{Bytes, codes, Lacks, strstr}
use storefs.Prelude.Search.{strstr_past, before-append}
use storefs.Prelude.Decimal.{decimal, decimal-AllDigits, digits-Lacks, atoi, atoi-decimal}
use storefs.Multipart.Xml.{find_tag_text, open_tag, close_tag, clipped, parse_block, size_of}

clipped_fits :
    (outlen : ℕ) (text : Bytes)
    → length text < outlen
    → ◌≡◌ {A = Option Bytes} (some (clipped outlen text)) (some text)
clipped_fits outlen text h = ground arith

-- A text between its tags is found, where the opening tag is found and the text fits.
pub find_tag_text-found :
    (xml tag text rest : Bytes) (outlen : ℕ)
    → strstr (open_tag tag) xml ≡ some (open_tag tag ++ (text ++ (close_tag tag ++ rest)))
    → strstr (close_tag tag) (text ++ (close_tag tag ++ rest)) ≡ some (close_tag tag ++ rest)
    → length text < outlen
    → find_tag_text xml tag outlen ≡ some text
unfolding find_tag_text
find_tag_text-found xml tag text rest outlen a b fits =
    let skip = drop-append (open_tag tag) (text ++ (close_tag tag ++ rest)) in
    rw (a, find_tag_text)
      (rw (skip, b, skip, before-append text (close_tag tag ++ rest))
        (clipped_fits outlen text fits))

find_tag_text-none :
    (xml tag : Bytes) (outlen : ℕ)
    → strstr (open_tag tag) xml ≡ none
    → find_tag_text xml tag outlen ≡ none
unfolding find_tag_text
find_tag_text-none xml tag outlen h = rw (h, find_tag_text)

module _ (n : ℕ) (etag : Bytes) (plain : Lacks b'<' etag) where
  abbrev pub behind_etag : Bytes
  behind_etag = codes "</ETag></Part>"

  abbrev pub behind_num : Bytes
  behind_num = codes "</PartNumber><ETag>" ++ (etag ++ behind_etag)

  abbrev pub block : Bytes
  block = codes "<Part><PartNumber>" ++ (decimal n ++ behind_num)

  pub past_num : (key s : Bytes) → strstr (b'<' ∷ key) (decimal n ++ s) ≡ strstr (b'<' ∷ key) s
  past_num key s =
      strstr_past b'<' key (decimal n) s
        (digits-Lacks b'<' (decimal n) (inr (omega arith)) (decimal-AllDigits n))

  pub past_etag : (key s : Bytes) → strstr (b'<' ∷ key) (etag ++ s) ≡ strstr (b'<' ∷ key) s
  past_etag key s = strstr_past b'<' key etag s plain

  number_found :
      length (decimal n) < 32 → find_tag_text block (codes "PartNumber") 32 ≡ some (decimal n)
  unfolding strstr
  number_found h =
      find_tag_text-found block (codes "PartNumber") (decimal n)
        (codes "<ETag>" ++ (etag ++ behind_etag)) 32 refl
        (past_num (codes "/PartNumber>") behind_num) h

  etag_found : length etag < 256 → find_tag_text block (codes "ETag") 256 ≡ some etag
  unfolding strstr
  etag_found h =
      find_tag_text-found block (codes "ETag") etag (codes "</Part>") 256
        (past_num (codes "ETag>") behind_num) (past_etag (codes "/ETag>") behind_etag) h

  no_size : find_tag_text block (codes "Size") 64 ≡ none
  unfolding strstr
  no_size =
      find_tag_text-none block (codes "Size") 64
        (rw (past_num (codes "Size>") behind_num, past_etag (codes "Size>") behind_etag))

  pub parse_block_lem :
      (count : ℕ)
      → length (decimal n) < 32
      → n < 2 ^ 31
      → length etag < 256
      → parse_block count block
        ≡ some (record { part_number = pos n; etag = etag; size = size_of count none })
  unfolding parse_block
  parse_block_lem count a b c =
      let number : atoi (decimal n) ≡ pos n =
        ap atoi (sym (append-nil (decimal n))) ∙ atoi-decimal n [] b refl in
      rw (number_found a, parse_block)
        (rw (etag_found c, no_size, number, take_all 255 etag (omega arith)))
