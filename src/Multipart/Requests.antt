-- ===== src/Multipart/Requests.antt =====
-- The S3 operations of examples/rdma/c/s3rdmamultipart.c: each makes its query, sends one request, and
-- frees the response.
pub mod Leaks
pub mod Query
use storefs.Prelude.{
  ℕ, ◌+◌, ◌*◌, Option, none, some, List, [], ◌∷◌, ◌++◌, length, Bool, ltb, if◌then◌else◌,
}
use storefs.Prelude.Int.{ℤ, pos, negsuc}
use storefs.Prelude.Text.{Bytes, codes, printed, appended}
use storefs.Prelude.Decimal.{signed_decimal}
use storefs.Os.{
  block, acquired, released, Os, Error, request_failed, missing_upload_id, parts_not_parsed,
  out_of_memory, out_of_bounds, Result, ok, err, Cmd, pure, fail, emit, taken, or_else, outcome,
  attempt, ask, ◌>>=◌, ◌>>◌, when◌then◌else◌,
}
use storefs.Response.{ResponseBuf}
use storefs.Sign.{Config}
use storefs.Http.{Answer, body_text, free_body, s3_request}
use storefs.Multipart.Xml.{CompletedPart, parse_upload_id, complete_body}
use storefs.Multipart.Store.{Listed, store_parts}

-- The query that names an upload, in 512 bytes.
unfoldable pub upload_query : Bytes → Bytes
upload_query upload_id = printed 512 (codes "uploadId=" ++ upload_id)

unfoldable pub part_query : ℤ → Bytes → Bytes
part_query part_number upload_id =
    printed 512
      (codes "partNumber=" ++ (signed_decimal part_number ++ (codes "&uploadId=" ++ upload_id)))

-- A failure of the request, or what is made of the text of the response.
abbrev pub answered : {A : Type 0} → Answer → (Bytes → Result A) → Result A
answered a f = elim a.failure [ some e ↦ err e | none ↦ f (body_text a.body) ]

-- What is there, or a failure.
abbrev pub found : {A : Type 0} → Error → Option A → Result A
found e none = err e
found e (some x) = ok x

-- `if (field) pos += snprintf(...)`
abbrev field : Bytes → Option Bytes → List Bytes
field label none = []
field label (some s) = (label ++ s) ∷ []

-- `if (opts->max_uploads > 0)`
abbrev limit : ℤ → List Bytes
limit (negsuc n) = []
limit (pos n) = if ltb 0 n then (codes "&max-uploads=" ++ signed_decimal (pos n)) ∷ [] else []

-- The pieces of the query of `s3_list_uploads`, in the order of the code.
unfoldable pub list_pieces :
    (delimiter key_marker : Option Bytes)
    → ℤ
    → (prefix upload_id_marker : Option Bytes) → List Bytes
list_pieces delimiter key_marker max_uploads prefix upload_id_marker =
    field (codes "&delimiter=") delimiter
    ++ (field (codes "&key-marker=") key_marker
        ++ (limit max_uploads
            ++ (field (codes "&prefix=") prefix
                ++ field (codes "&upload-id-marker=") upload_id_marker)))

-- `none` where the code writes past the 1024 bytes of the query.
unfoldable pub list_query :
    (delimiter key_marker : Option Bytes)
    → ℤ
    → (prefix upload_id_marker : Option Bytes) → Option Bytes
unfolding list_pieces
list_query delimiter key_marker max_uploads prefix upload_id_marker =
    appended 1024 (codes "uploads=")
      (list_pieces delimiter key_marker max_uploads prefix upload_id_marker)

module _ (os : Os) (cfg : Config) (bucket : Bytes) (object : Option Bytes) where
  -- A request, and what is made of its response before that is freed.
  unfoldable pub exchange :
      {A : Type 0} (method : Bytes) (query : Bytes) (body : Option Bytes)
      → Option (Bytes × Bytes)
      → (Bytes → Result A)
      → Cmd A
  exchange method query body extra f = do
    a ← s3_request os cfg method bucket object (some query) body extra
    free_body a.body
    outcome (answered a f)

  unfoldable pub s3_create_multipart : ℕ → Cmd Bytes
  unfolding exchange
  s3_create_multipart upload_id_len =
      exchange (codes "POST") (codes "uploads=") none none
        (λ xml. found missing_upload_id (parse_upload_id xml upload_id_len))

  -- The ETag that stands for the part.
  unfoldable pub s3_upload_part_empty :
      (upload_id : Bytes) → ℤ → (request_id : Bytes) → ℕ → Cmd Bytes
  unfolding exchange part_query
  s3_upload_part_empty upload_id part_number request_id etag_len =
      exchange (codes "PUT") (part_query part_number upload_id) none
        (some (codes "X-RDMA-Request-ID", request_id))
        (λ xml.
          ok (printed etag_len (codes "\"part-" ++ (signed_decimal part_number ++ codes "\""))))

  unfoldable pub s3_list_parts : Bytes → Cmd Listed
  unfolding upload_query
  s3_list_parts upload_id = do
    a ← s3_request os cfg (codes "GET") bucket object (some (upload_query upload_id)) none none
    r ← attempt (elim a.failure [ some e ↦ fail e | none ↦ store_parts os (body_text a.body) ])
    free_body a.body
    outcome r

  unfoldable pub s3_complete_multipart : Bytes → List CompletedPart → Cmd (Unit {0})
  unfolding exchange upload_query
  s3_complete_multipart upload_id parts = do
    b ← λ t. taken block out_of_memory (os.malloc t (256 + length parts * 384)) t
    r ← attempt (
        exchange (codes "POST") (upload_query upload_id) (some (complete_body parts)) none
          (λ xml. ok tt))
    emit (released (block b))
    outcome r

  unfoldable pub s3_abort_multipart : Bytes → Cmd (Unit {0})
  unfolding exchange upload_query
  s3_abort_multipart upload_id =
      exchange (codes "DELETE") (upload_query upload_id) none none (λ xml. ok tt)

  -- The text of the response, which is printed.
  unfoldable pub s3_list_uploads :
      (delimiter key_marker : Option Bytes)
      → ℤ
      → (prefix upload_id_marker : Option Bytes) → Cmd Bytes
  unfolding exchange list_query
  s3_list_uploads delimiter key_marker max_uploads prefix upload_id_marker =
      elim (list_query delimiter key_marker max_uploads prefix upload_id_marker) [
        | none ↦ fail out_of_bounds
        | some query ↦ exchange (codes "GET") query none none (λ text. ok text)
      ]
