-- ===== src/Client.antt =====
-- The requests of examples/rdma/c/s3client.c, which take no body: `s3_head_object`, `s3_get_object` and
-- `s3_put_object`. What comes of a body is thrown away. libcurl is a parameter.
pub mod Leaks
pub mod Size
use storefs.Prelude.{
  ℕ, Bool, true, false, ◌&&◌, ◌||◌, Option, none, some, List, [], ◌∷◌, ◌++◌, length, drop, ltb,
  ◌==◌, if◌then◌else◌,
}
use storefs.Prelude.Int.{ℤ, pos, negsuc}
use storefs.Prelude.Text.{Bytes, codes, printed, starts_with}
use storefs.Prelude.Decimal.{atoll}
use storefs.Os.{
  easy, slist, Verb, get, put, head, Request, Response, acquired, released, requested, Os, Error,
  request_failed, Result, ok, err, Cmd, pure, fail, emit, ◌>>=◌, ◌>>◌, when◌then◌else◌, outcome,
  ask,
}
use storefs.Headers.{free_headers, append_headers}
use storefs.Sign.{Config, Signed, no_key, key_text, to_lower, sign_request}

-- `header_cb`
unfoldable pub header_cb : Bytes → ℤ → ℤ
header_cb line len =
    if ltb 15 (length line) && starts_with (codes "content-length:") (to_lower line)
    then atoll (drop 15 line)
    else len

-- The lines that come, one after the other; the last length counts.
unfoldable pub header_lines : List Bytes → ℤ → ℤ
unfolding header_cb
header_lines [] len = len
header_lines (line ∷ rest) len = header_lines rest (header_cb line len)

unfoldable pub client_url : Config → Bytes → Option Bytes → Bytes
client_url cfg bucket key =
    printed 2048
      (cfg.endpoint ++ (b'/' ∷ bucket ++ (if no_key key then [] else b'/' ∷ key_text key)))

-- The headers of `make_curl`, each in 512 bytes.
unfoldable pub client_headers : Signed → List Bytes
client_headers s =
    printed 512 (codes "Host: " ++ s.host)
    ∷ printed 512 (codes "x-amz-date: " ++ s.amzdate)
    ∷ printed 512 (codes "Authorization: " ++ s.authorization)
    ∷ codes "Accept:"
    ∷ []

-- The header that the request adds.
unfoldable pub added_header : Option (Bytes × Bytes) → List Bytes
added_header none = []
added_header (some (name, value)) = printed 512 (name ++ (codes ": " ++ value)) ∷ []

-- The handle, which the code does not check.
unfoldable pub note_handle : Option ℕ → Cmd (Unit {0})
note_handle none = pure tt
note_handle (some c) = emit (acquired (easy c))

module _ (os : Os) where
  -- `curl_easy_perform`, and the release of the headers and of the handle. Without a handle libcurl
  -- answers each call with CURLE_BAD_FUNCTION_ARGUMENT and there is no status.
  unfoldable pub perform_request : Option ℕ → Request → Cmd Response
  unfolding free_headers
  perform_request none req = do
    free_headers req.headers
    pure (record { done = false; status = 0; lines = []; chunks = [] })
  perform_request (some c) req = do
    r ← ask (λ t. os.perform t req)
    emit (requested req)
    free_headers req.headers
    emit (released (easy c))
    pure r

  -- A request from `make_curl` to the release of what it took.
  unfoldable pub client_request :
      Config
      → (bucket : Bytes) → Option Bytes
      → (method : Bytes) → Verb
      → (ignore_content_length : Bool) → Option (Bytes × Bytes)
      → Cmd Response
  unfolding perform_request client_url client_headers added_header note_handle append_headers
  client_request cfg bucket key method verb ignore_content_length extra = do
    now ← ask os.time
    s ← outcome (sign_request os cfg method bucket key now)
    hs ← append_headers os [] (client_headers s)
    handle ← ask os.easy_init
    note_handle handle
    hs ← append_headers os hs (added_header extra)
    perform_request handle (record {
      url = client_url cfg bucket key;
      headers = hs;
      verb = verb;
      ignore_content_length = ignore_content_length;
    })

  -- The size of the object, -1 where no line tells it.
  unfoldable pub s3_head_object : Config → (bucket key : Bytes) → Cmd ℤ
  unfolding client_request header_lines
  s3_head_object cfg bucket key = do
    r ← client_request cfg bucket (some key) (codes "HEAD") head false none
    when r.done && (r.status == 200)
        then pure (header_lines r.lines (negsuc 0))
        else fail request_failed

  unfoldable pub s3_get_object :
      Config → (bucket key : Bytes) → Option (Bytes × Bytes) → Cmd (Unit {0})
  unfolding client_request
  s3_get_object cfg bucket key extra = do
    r ← client_request cfg bucket (some key) (codes "GET") get true extra
    when r.done && (r.status == 200) then pure tt else fail request_failed

  unfoldable pub s3_put_object :
      Config → (bucket key : Bytes) → Option (Bytes × Bytes) → Cmd (Unit {0})
  unfolding client_request
  s3_put_object cfg bucket key extra = do
    r ← client_request cfg bucket (some key) (codes "PUT") put false extra
    when r.done && ((r.status == 200) || (r.status == 201)) then pure tt else fail request_failed
