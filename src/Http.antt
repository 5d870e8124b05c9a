-- ===== src/Http.antt =====
-- Requests over libcurl: `s3_request` of examples/rdma/c/s3rdmamultipart.c. libcurl is a parameter.
pub mod Leaks
pub mod Success
pub mod Last
use storefs.Prelude.{
  ℕ, ◌-◌, ◌+◌, Bool, true, false, ◌&&◌, Option, none, some, List, [], ◌∷◌, ◌++◌, length, concat,
  ltb, leb, ◌==◌, if◌then◌else◌,
}
use storefs.Prelude.Int.{ℤ, pos, negsuc}
use storefs.Prelude.Text.{Bytes, codes, printed, same_text, c_string}
use storefs.Os.{
  easy, slist, block, Verb, get, post, put, delete, Request, Response, acquired, released,
  requested, failed, Trace, Os, Error, curl_init_failed, request_failed, Result, ok, err, Cmd, pure,
  fail, emit, ◌>>=◌, ◌>>◌, when◌then◌else◌, outcome, ask,
}
use storefs.Headers.{free_headers, append_headers}
use storefs.Response.{ResponseBuf, empty, collect}
use storefs.Sign.{Config, Signed, no_key, key_text}
use storefs.Multipart.Sign as Multi

-- The block of a response that grows.
abbrev pub body_block : ℕ
body_block = 1

-- What `s3_request` returns, 0 or -1 with a message, and the response that it leaves.
pub record Answer : Type 0 where
  pub failure : Option Error
  pub body : ResponseBuf

-- `resp.data ? resp.data : ""`
abbrev pub body_text : ResponseBuf → Bytes
body_text buf = c_string buf.bytes

-- `free(resp.data)`
unfoldable pub free_body : ResponseBuf → Cmd (Unit {0})
free_body buf = when buf.cap == 0 then pure tt else emit (released (block body_block))

-- The URL: the path, and behind it the query as far as it fits.
unfoldable pub request_url : Config → Bytes → (key query : Option Bytes) → Bytes
request_url cfg bucket key query =
    let path =
      printed 4096
        (cfg.endpoint ++ (b'/' ∷ bucket ++ (if no_key key then [] else b'/' ∷ key_text key))) in
    path ++ (if no_key query then [] else printed (4096 - length path) (b'?' ∷ key_text query))

unfoldable pub extra_headers : Option (Bytes × Bytes) → List Bytes
extra_headers none = []
extra_headers (some (name, value)) = printed 2300 (name ++ (codes ": " ++ value)) ∷ []

-- The headers, in the order of the code.
unfoldable pub request_headers : Signed → Option (Bytes × Bytes) → List Bytes
unfolding extra_headers
request_headers s extra =
    printed 2300 (codes "Host: " ++ s.host)
    ∷ printed 2300 (codes "x-amz-date: " ++ s.amzdate)
    ∷ printed 2300 (codes "Authorization: " ++ s.authorization)
    ∷ codes "Accept:"
    ∷ codes "Content-Type:"
    ∷ extra_headers extra

-- The options that the method sets; without one libcurl does a GET.
unfoldable pub verb_of : Bytes → Option Bytes → Verb
verb_of method body =
    if same_text method (codes "GET")
    then get
    else if same_text method (codes "POST")
    then post (key_text body)
    else if same_text method (codes "PUT")
    then put
    else if same_text method (codes "DELETE")
    then delete
    else get

-- The length that is signed: that of the body, or -1 without one.
abbrev pub signed_length : Option Bytes → ℤ
signed_length none = negsuc 0
signed_length (some body) = pos (length body)

-- `rc != CURLE_OK || http < 200 || http >= 300`. A transfer whose chunks are not all taken fails with
-- CURLE_WRITE_ERROR.
unfoldable pub rejected : Response → ResponseBuf → Bool
rejected r buf =
    if r.done && (length buf.bytes == length (concat r.chunks))
    then (if leb 200 r.status && ltb r.status 300 then false else true)
    else true

module _ (os : Os) where
  -- `curl_easy_perform`, with the chunks that come given to `write_response`, and the release of the
  -- handle and of the headers.
  unfoldable pub transfer : Request → ℕ → Cmd Answer
  unfolding rejected free_headers
  transfer req c = do
    emit (acquired (easy c))
    r ← ask (λ t. os.perform t req)
    emit (requested req)
    buf ← ask (λ t. collect (os.realloc t) r.chunks empty)
    when buf.cap == 0 then pure tt else emit (acquired (block body_block))
    free_headers req.headers
    emit (released (easy c))
    pure (record { failure = if rejected r buf then some request_failed else none; body = buf })

  -- `if (!curl)`: without a handle there is no transfer.
  unfoldable pub transfer_with : Option ℕ → Request → Cmd Answer
  unfolding transfer free_headers
  transfer_with none req = do
    free_headers req.headers
    pure (record { failure = some curl_init_failed; body = empty })
  transfer_with (some c) req = transfer req c

  unfoldable pub s3_request :
      Config
      → (method bucket : Bytes) → (key query body : Option Bytes) → Option (Bytes × Bytes)
      → Cmd Answer
  unfolding transfer_with request_url request_headers verb_of append_headers
  s3_request cfg method bucket key query body extra = do
    now ← ask os.time
    s ← outcome (Multi.sign_request os cfg method bucket key query (signed_length body) now)
    hs ← append_headers os [] (request_headers s extra)
    handle ← ask os.easy_init
    transfer_with handle (record {
      url = request_url cfg bucket key query;
      headers = hs;
      verb = verb_of method body;
      ignore_content_length = false;
    })
