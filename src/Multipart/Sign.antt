-- ===== src/Multipart/Sign.antt =====
-- The signing of a request in examples/rdma/c/s3rdmamultipart.c, which has its own copy of what
-- s3client.c does, and signs a query and a length of the body too.
use storefs.Prelude.{ℕ, Option, none, some, [], ◌∷◌, ◌++◌}
use storefs.Prelude.Int.{ℤ, pos, negsuc}
use storefs.Prelude.Text.{Bytes, codes, printed}
use storefs.Prelude.Decimal.{signed_decimal}
use storefs.Endpoint.{host_from_endpoint}
use storefs.Os.{Os, Result, ok, err}
use storefs.Sign.{Config, Signed, date_of, stamp_of, canonical_uri, lines, sign_text}

-- The headers that are signed, and their names; the length is there where it is not negative.
unfoldable pub canonical_headers : ℤ → (host amzdate : Bytes) → Bytes
canonical_headers (pos n) host amzdate = printed 4096 (
    codes "content-length:"
    ++ (signed_decimal (pos n)
        ++ (codes "\nhost:" ++ (host ++ (codes "\nx-amz-date:" ++ (amzdate ++ codes "\n"))))))
canonical_headers (negsuc n) host amzdate =
    printed 4096 (codes "host:" ++ (host ++ (codes "\nx-amz-date:" ++ (amzdate ++ codes "\n"))))

unfoldable pub signed_headers : ℤ → Bytes
signed_headers (pos n) = codes "content-length;host;x-amz-date"
signed_headers (negsuc n) = codes "host;x-amz-date"

abbrev query_text : Option Bytes → Bytes
query_text none = []
query_text (some q) = q

unfoldable pub canonical_request :
    (method bucket : Bytes) → (key query : Option Bytes) → ℤ → (host amzdate : Bytes) → Bytes
unfolding canonical_headers signed_headers canonical_uri
canonical_request method bucket key query content_length host amzdate = lines (
    method
    ∷ canonical_uri bucket key
    ∷ query_text query
    ∷ canonical_headers content_length host amzdate
    ∷ signed_headers content_length
    ∷ codes "UNSIGNED-PAYLOAD"
    ∷ [])

module _ (os : Os) where
  -- `sign_request` at the time `now`
  unfoldable pub sign_request :
      Config → (method bucket : Bytes) → (key query : Option Bytes) → ℤ → ℕ → Result Signed
  unfolding sign_text canonical_request date_of stamp_of
  sign_request cfg method bucket key query content_length now =
      let host = host_from_endpoint cfg.endpoint 256 in
      let amzdate = stamp_of (os.gmtime now) in
      elim (sign_text os cfg (canonical_request method bucket key query content_length host amzdate)
        (signed_headers content_length) (date_of (os.gmtime now)) amzdate) [
          | err e ↦ err e
          | ok auth ↦ ok (record {
            host = host;
            amzdate = amzdate;
            payload_hash = codes "UNSIGNED-PAYLOAD";
            authorization = auth;
          })
        ]
