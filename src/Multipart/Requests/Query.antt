-- ===== src/Multipart/Requests/Query.antt =====
-- The query of `s3_list_uploads` in its buffer.
use storefs.Prelude.{
  ℕ, zero, suc, ◌+◌, ◌≡◌, ◌<◌, refl, Option, none, some, List, [], ◌∷◌, ◌++◌, length, concat, ltb,
  true, arith, length-append, append_assoc, append-nil, ap, ◌∙◌,
}
use storefs.Prelude.Int.{ℤ, pos, negsuc}
use storefs.Prelude.Text.{Bytes, codes, appended}
use storefs.Prelude.Decimal.{signed_decimal}
use storefs.Prelude.Buffers.{appended_all}
use storefs.Multipart.Requests.{field, limit, list_pieces, list_query}

-- A piece behind a text that is too long for the buffer.
appended_over :
    (size : ℕ) (text : Bytes) (pieces : List Bytes) (s : Bytes)
    → size < length text + length (concat pieces)
    → appended size text (pieces ++ (s ∷ [])) ≡ none
unfolding appended
appended_over size text [] s h =
    let over : ltb size (length text) ≡ true = ground arith in rw over refl
appended_over size text (p ∷ ps) s h =
    let rest =
      appended_over size (text ++ p) ps s
        (omega (arith, length-append text p, length-append p (concat ps))) in
    ground arith

behind_four :
    (a b c d e : List Bytes) → a ++ (b ++ (c ++ (d ++ e))) ≡ (a ++ (b ++ (c ++ (d ++ [])))) ++ e
behind_four a b c d e =
    rw
      (
        append-nil d,
        append_assoc a (b ++ (c ++ d)) e,
        append_assoc b (c ++ d) e,
        append_assoc c d e,
      )
      refl

-- A setting of a query: its key and its value.
abbrev Setting : Type 0
Setting = Bytes × Bytes

-- The settings behind the first one, each behind an ampersand.
more_text : List Setting → Bytes
more_text [] = []
more_text ((key, value) ∷ rest) = b'&' ∷ key ++ (b'=' ∷ value ++ more_text rest)

-- The text of a query: key=value&key=value and so on.
unfoldable pub query_text : List Setting → Bytes
unfolding more_text
query_text [] = []
query_text ((key, value) ∷ rest) = key ++ (b'=' ∷ value ++ more_text rest)

abbrev setting : Bytes → Option Bytes → List Setting
setting key none = []
setting key (some value) = (key, value) ∷ []

-- The greatest number of uploads, where it is above 0.
abbrev limit_setting : ℤ → List Setting
limit_setting (negsuc n) = []
limit_setting (pos zero) = []
limit_setting (pos (suc n)) = (codes "max-uploads", signed_decimal (pos (suc n))) ∷ []

-- What a listing of uploads asks for, in the order that S3's signature needs.
abbrev pub list_settings :
    (delimiter key_marker : Option Bytes)
    → ℤ
    → (prefix upload_id_marker : Option Bytes) → List Setting
list_settings delimiter key_marker n prefix marker =
    (codes "uploads", []) ∷ setting (codes "delimiter") delimiter
    ++ (setting (codes "key-marker") key_marker
        ++ (limit_setting n
            ++ (setting (codes "prefix") prefix ++ setting (codes "upload-id-marker") marker)))

field_lem :
    (key : Bytes) (value : Option Bytes) (pieces : List Bytes) (ss : List Setting)
    → concat pieces ≡ more_text ss
    → concat (field (b'&' ∷ key ++ (b'=' ∷ [])) value ++ pieces)
      ≡ more_text (setting key value ++ ss)
unfolding more_text
field_lem key none pieces ss e = e
field_lem key (some value) pieces ss e = rw e (
    ap (λ s. b'&' ∷ s)
      (append_assoc (key ++ (b'=' ∷ [])) value (more_text ss)
        ∙ append_assoc key (b'=' ∷ []) (value ++ more_text ss)))

limit_lem :
    (n : ℤ) (pieces : List Bytes) (ss : List Setting)
    → concat pieces ≡ more_text ss
    → concat (limit n ++ pieces) ≡ more_text (limit_setting n ++ ss)
unfolding more_text
limit_lem (negsuc n) pieces ss e = e
limit_lem (pos zero) pieces ss e = e
limit_lem (pos (suc n)) pieces ss e =
    let above : ltb 0 (suc n) ≡ true = ground arith in
    rw above (field_lem (codes "max-uploads") (some (signed_decimal (pos (suc n)))) pieces ss e)

pieces_lem :
    (delimiter key_marker : Option Bytes) (n : ℤ) (prefix marker : Option Bytes)
    → codes "uploads=" ++ concat (list_pieces delimiter key_marker n prefix marker)
      ≡ query_text (list_settings delimiter key_marker n prefix marker)
unfolding query_text list_pieces
pieces_lem delimiter key_marker n prefix marker =
    ap (λ s. codes "uploads=" ++ s)
      (field_lem (codes "delimiter") delimiter _ _ (
        field_lem (codes "key-marker") key_marker _ _
          (limit_lem n _ _ (field_lem (codes "prefix") prefix _ _ (last marker)))))
  where
    last :
        (o : Option Bytes)
        → concat (field (codes "&upload-id-marker=") o)
          ≡ more_text (setting (codes "upload-id-marker") o)
    last none = refl
    last (some value) = refl

-- The query of `s3_list_uploads` is `uploads=` and the options that are set, each as `&key=value`: the
-- delimiter, the key marker, the greatest number of uploads where it is above 0, the prefix and the
-- upload id marker, in this order; where that text has fewer than 1024 bytes.
pub list_query-query_text :
    (delimiter key_marker : Option Bytes) (n : ℤ) (prefix marker : Option Bytes)
    → length (query_text (list_settings delimiter key_marker n prefix marker)) < 1024
    → list_query delimiter key_marker n prefix marker
      ≡ some (query_text (list_settings delimiter key_marker n prefix marker))
unfolding list_query
list_query-query_text delimiter key_marker n prefix marker h =
    let e = pieces_lem delimiter key_marker n prefix marker in
    appended_all 1024 (codes "uploads=") (list_pieces delimiter key_marker n prefix marker) (
      omega (
        arith,
        ap length e,
        length-append (codes "uploads=")
            (concat (list_pieces delimiter key_marker n prefix marker)),
      ))
    ∙ ap some e

-- Where the text in front of the last marker has more than 1024 bytes, the call that writes the marker
-- does so behind the end of the buffer.
pub list_query_overflow :
    (delimiter key_marker : Option Bytes) (n : ℤ) (prefix : Option Bytes) (last : Bytes)
    → 1016 < length (concat (list_pieces delimiter key_marker n prefix none))
    → list_query delimiter key_marker n prefix (some last) ≡ none
unfolding list_query list_pieces
list_query_overflow delimiter key_marker n prefix last h =
    ap (appended 1024 (codes "uploads=")) (
      behind_four (field (codes "&delimiter=") delimiter) (field (codes "&key-marker=") key_marker)
        (limit n) (field (codes "&prefix=") prefix) ((codes "&upload-id-marker=" ++ last) ∷ []))
    ∙ appended_over 1024 (codes "uploads=") (list_pieces delimiter key_marker n prefix none)
        (codes "&upload-id-marker=" ++ last) (omega arith)
