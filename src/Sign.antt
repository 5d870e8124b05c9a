-- ===== src/Sign.antt =====
-- The signing of a request by AWS Signature Version 4, from examples/rdma/c/s3client.c. OpenSSL and
-- the clock are parameters.
pub mod Bounds
pub mod Agree
use storefs.Prelude.{
  ℕ, ◌+◌, ◌-◌, Bool, true, false, ◌&&◌, Option, none, some, List, [], ◌∷◌, ◌++◌, length, take, ltb,
  leb, map, if◌then◌else◌,
}
use storefs.Prelude.Text.{Bytes, codes, printed, appended, text_lt, two_digits, hex}
use storefs.Prelude.Decimal.{decimal}
use storefs.Endpoint.{host_from_endpoint}
use storefs.Os.{Tm, Trace, Os, Error, out_of_bounds, Result, ok, err}

-- `s3_config_t` of s3client.h
pub record Config : Type 0 where
  pub endpoint : Bytes
  pub region : Bytes
  pub access_key : Bytes
  pub secret_key : Bytes

-- `header_kv`
pub record Header : Type 0 where
  pub k : Bytes
  pub v : Bytes

-- What `sign_request` leaves in its buffers.
pub record Signed : Type 0 where
  pub host : Bytes
  pub amzdate : Bytes
  pub payload_hash : Bytes
  pub authorization : Bytes

-- `strftime` with "%Y%m%d"
unfoldable pub date_of : Tm → Bytes
date_of tm = decimal tm.year ++ (two_digits tm.month ++ two_digits tm.day)

-- `strftime` with "%Y%m%dT%H%M%SZ"
unfoldable pub stamp_of : Tm → Bytes
unfolding date_of
stamp_of tm =
    date_of tm
    ++ (b'T' ∷ two_digits tm.hour
        ++ (two_digits tm.minute ++ (two_digits tm.second ++ (b'Z' ∷ []))))

-- `key == NULL || key[0] == '\0'`
abbrev pub no_key : Option Bytes → Bool
no_key none = true
no_key (some []) = true
no_key (some (c ∷ s)) = false

abbrev pub key_text : Option Bytes → Bytes
key_text none = []
key_text (some s) = s

unfoldable pub canonical_uri : Bytes → Option Bytes → Bytes
canonical_uri bucket key =
    printed 2048 (if no_key key then b'/' ∷ bucket else b'/' ∷ bucket ++ (b'/' ∷ key_text key))

-- `to_lower_inplace`
unfoldable pub to_lower : Bytes → Bytes
to_lower [] = []
to_lower (c ∷ s) = (if leb b'A' c && leb c b'Z' then c + 32 else c) ∷ to_lower s

-- `qsort` with `cmp_header`: the order of the keys as they are written.
insert_header : Header → List Header → List Header
insert_header h [] = h ∷ []
insert_header h (x ∷ xs) =
    let rest = insert_header h xs in if text_lt x.k h.k then x ∷ rest else h ∷ x ∷ xs

unfoldable pub sort_headers : List Header → List Header
unfolding insert_header
sort_headers [] = []
sort_headers (h ∷ hs) = insert_header h (sort_headers hs)

-- `keybuf`: the key in 128 bytes, in lower case
abbrev pub keybuf : Header → Bytes
keybuf h = to_lower (take 127 h.k)

-- "%s:%s\n"
abbrev pub header_line : Header → Bytes
header_line h = keybuf h ++ (b':' ∷ h.v ++ (b'\n' ∷ []))

-- "%s%s": a semicolon in front of each name but the first
unfoldable pub name_pieces : Bool → List Header → List Bytes
name_pieces first [] = []
name_pieces first (h ∷ hs) = (if first then keybuf h else b';' ∷ keybuf h) ∷ name_pieces false hs

-- The two texts; `none` where the code writes past one of its buffers.
unfoldable pub build_canonical_headers : List Header → Option (Bytes × Bytes)
unfolding name_pieces sort_headers
build_canonical_headers hs =
    let sorted = sort_headers hs in
    elim (appended 4096 [] (map header_line sorted)) [
      | none ↦ none
      | some out ↦ elim (appended 512 [] (name_pieces true sorted)) [
        | none ↦ none
        | some signed_headers ↦ some (out, signed_headers)
      ]
    ]

-- The two headers that are signed.
abbrev pub signed_pair : (host amzdate : Bytes) → List Header
signed_pair host amzdate =
    record { k = codes "Host"; v = host } ∷ record { k = codes "x-amz-date"; v = amzdate } ∷ []

-- Lines with a newline between them.
unfoldable pub lines : List Bytes → Bytes
lines [] = []
lines (s ∷ []) = s
lines (s ∷ t ∷ ss) = s ++ (b'\n' ∷ lines (t ∷ ss))

unfoldable pub scope_of : (datestamp region : Bytes) → Bytes
scope_of datestamp region = printed 128 (datestamp ++ (b'/' ∷ region ++ codes "/s3/aws4_request"))

unfoldable pub string_to_sign : (amzdate scope hash : Bytes) → Bytes
string_to_sign amzdate scope hash = lines (codes "AWS4-HMAC-SHA256" ∷ amzdate ∷ scope ∷ hash ∷ [])

unfoldable pub authorization_of : (access_key scope signed_headers sighex : Bytes) → Bytes
authorization_of access_key scope signed_headers sighex =
    codes "AWS4-HMAC-SHA256 Credential="
    ++ (access_key
        ++ (b'/' ∷ scope
            ++ (codes ", SignedHeaders=" ++ (signed_headers ++ (codes ", Signature=" ++ sighex)))))

module _ (os : Os) where
  unfoldable pub derive_signing_key : (secret date region : Bytes) → Bytes
  derive_signing_key secret date region =
      let k_date = os.hmac (printed 160 (codes "AWS4" ++ secret)) date in
      let k_region = os.hmac k_date region in
      let k_service = os.hmac k_region (codes "s3") in os.hmac k_service (codes "aws4_request")

  -- The header `Authorization`, in 2048 bytes.
  unfoldable pub sign_header :
      Config → (canonical_request signed_headers datestamp amzdate : Bytes) → Bytes
  unfolding derive_signing_key scope_of string_to_sign authorization_of
  sign_header cfg canonical_request signed_headers datestamp amzdate =
      let scope = scope_of datestamp cfg.region in
      let to_sign = string_to_sign amzdate scope (hex (os.sha256 canonical_request)) in
      let key = derive_signing_key cfg.secret_key datestamp cfg.region in
      let sighex = hex (os.hmac key to_sign) in
      printed 2048 (authorization_of cfg.access_key scope signed_headers sighex)

  -- What follows the canonical request. A text that its buffer cuts is hashed as far as it would have
  -- gone, past the end of the buffer.
  unfoldable pub sign_text :
      Config → (canonical_request signed_headers datestamp amzdate : Bytes) → Result Bytes
  unfolding sign_header
  sign_text cfg canonical_request signed_headers datestamp amzdate =
      let to_sign =
        string_to_sign amzdate (scope_of datestamp cfg.region)
          (hex (os.sha256 canonical_request)) in
      if ltb (length canonical_request) 8192 && ltb (length to_sign) 4096
      then ok (sign_header cfg canonical_request signed_headers datestamp amzdate)
      else err out_of_bounds

  -- `sign_request` at the time `now`, with the buffers that `make_curl` gives it.
  unfoldable pub sign_request : Config → (method bucket : Bytes) → Option Bytes → ℕ → Result Signed
  unfolding sign_text build_canonical_headers canonical_uri date_of stamp_of
  sign_request cfg method bucket key now =
      let host = host_from_endpoint cfg.endpoint 256 in
      let amzdate = stamp_of (os.gmtime now) in
      let payload_hash = codes "UNSIGNED-PAYLOAD" in
      elim (build_canonical_headers (signed_pair host amzdate)) [
        | none ↦ err out_of_bounds
        | some (canonical_headers, signed_headers) ↦
            elim (sign_text cfg
              (lines (
                method
                ∷ canonical_uri bucket key
                ∷ []
                ∷ canonical_headers
                ∷ signed_headers
                ∷ payload_hash
                ∷ []))
              signed_headers (date_of (os.gmtime now)) amzdate) [
                | err e ↦ err e
                | ok auth ↦ ok (record {
                  host = host;
                  amzdate = amzdate;
                  payload_hash = payload_hash;
                  authorization = auth;
                })
              ]
      ]
