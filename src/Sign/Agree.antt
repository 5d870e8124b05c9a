-- ===== src/Sign/Agree.antt =====
-- `sign_request` of s3client.c and of s3rdmamultipart.c, side by side.
use storefs.Prelude.{
  ℕ, ◌+◌, ◌≤◌, ◌<◌, ◌≡◌, refl, ap, ◌∙◌, true, Option, none, some, [], ◌∷◌, ◌++◌, length, map, arith,
  length-append, append_assoc, append-nil,
}
use storefs.Prelude.Int.{negsuc}
use storefs.Prelude.Text.{Bytes, codes, appended, text_lt}
use storefs.Prelude.Buffers.{appended_all, printed_all}
use storefs.Os.{Os}
use storefs.Endpoint.{host_from_endpoint}
use storefs.Endpoint.Laws.{length-host_from_endpoint}
use storefs.Sign.{
  Config, stamp_of, to_lower, sort_headers, name_pieces, build_canonical_headers, header_line,
  signed_pair, canonical_uri, lines, sign_request,
}
use storefs.Multipart.Sign as Multi

abbrev host_lines : (host amzdate : Bytes) → Bytes
host_lines host amzdate =
    codes "host:" ++ (host ++ (codes "\nx-amz-date:" ++ (amzdate ++ codes "\n")))

length-host_lines :
    (host amzdate : Bytes) → length (host_lines host amzdate) ≡ length host + length amzdate + 18
length-host_lines host amzdate = omega (
  arith,
  length-append host (codes "\nx-amz-date:" ++ (amzdate ++ codes "\n")),
  length-append amzdate (codes "\n"),
)

lines_lem :
    (host amzdate : Bytes)
    → length host + length amzdate ≤ 4000
    → appended 4096 [] (map header_line (sort_headers (signed_pair host amzdate)))
      ≡ some (host_lines host amzdate)
unfolding sort_headers text_lt to_lower
lines_lem host amzdate h =
    let first : Bytes = codes "host:" ++ (host ++ codes "\n") in
    let second : Bytes = codes "x-amz-date:" ++ (amzdate ++ codes "\n") in
    appended_all 4096 [] (first ∷ second ∷ []) (
      omega (
        arith,
        length-append (host ++ codes "\n") (second ++ []),
        length-append host (codes "\n"),
        length-append (amzdate ++ codes "\n") [],
        length-append amzdate (codes "\n"),
      ))
    ∙ ap some (
        ap (λ x. first ++ x) (append-nil second)
        ∙ ap (λ x. codes "host:" ++ x) (append_assoc host (codes "\n") second))

names_lem :
    (host amzdate : Bytes)
    → appended 512 [] (name_pieces true (sort_headers (signed_pair host amzdate)))
      ≡ some (codes "host;x-amz-date")
unfolding sort_headers text_lt to_lower name_pieces appended
names_lem host amzdate = refl

build_lem :
    (host amzdate : Bytes)
    → length host + length amzdate ≤ 4000
    → build_canonical_headers (signed_pair host amzdate)
      ≡ some (host_lines host amzdate, codes "host;x-amz-date")
unfolding build_canonical_headers
build_lem host amzdate h =
    rw (lines_lem host amzdate h, names_lem host amzdate, build_canonical_headers) refl

request_lem :
    (method bucket : Bytes) (key : Option Bytes) (host amzdate : Bytes)
    → length (host_lines host amzdate) < 4096
    → Multi.canonical_request method bucket key none (negsuc 0) host amzdate
      ≡ lines (
          method
          ∷ canonical_uri bucket key
          ∷ []
          ∷ host_lines host amzdate
          ∷ codes "host;x-amz-date"
          ∷ codes "UNSIGNED-PAYLOAD"
          ∷ [])
unfolding Multi.canonical_request Multi.canonical_headers Multi.signed_headers
request_lem method bucket key host amzdate fits =
    rw (printed_all 4096 (host_lines host amzdate) fits, Multi.canonical_request) refl

-- A request without a query and without a body is signed alike by the two clients, for every
-- configuration, method, bucket and key, and each time whose date has fewer than 64 bytes.
pub sign_request-Multi :
    (os : Os) (cfg : Config) (method bucket : Bytes) (key : Option Bytes) (now : ℕ)
    → length (stamp_of (os.gmtime now)) < 64
    → sign_request os cfg method bucket key now
      ≡ Multi.sign_request os cfg method bucket key none (negsuc 0) now
unfolding sign_request Multi.sign_request Multi.signed_headers
sign_request-Multi os cfg method bucket key now h =
    let host = host_from_endpoint cfg.endpoint 256 in
    let amzdate = stamp_of (os.gmtime now) in
    let short : length host ≤ 255 = length-host_from_endpoint cfg.endpoint 256 (omega arith) in
    let room : length host + length amzdate ≤ 4000 = omega arith in
    let fits : length (host_lines host amzdate) < 4096 =
      omega (arith, length-host_lines host amzdate) in
    rw (build_lem host amzdate room, sign_request)
      (rw (request_lem method bucket key host amzdate fits, Multi.sign_request) refl)
