-- ===== src/Sign/Bounds.antt =====
-- The texts that are hashed, and the sizes of their buffers.
use storefs.Prelude.{
  ℕ, ◌+◌, ◌-◌, ◌*◌, ◌≤◌, ◌<◌, ◌≡◌, refl, Option, some, List, [], ◌∷◌, ◌++◌, length, arith,
  length-append, length-take, lt→ltb,
}
use storefs.Prelude.Int.{ℤ, pos, negsuc}
use storefs.Prelude.Decimal.{signed_decimal}
use storefs.Prelude.Text.{Bytes, codes, printed, hex}
use storefs.Os.{Os, ok}
use storefs.Endpoint.{host_from_endpoint}
use storefs.Sign.{
  Config, date_of, stamp_of, canonical_uri, lines, scope_of, string_to_sign, sign_text, sign_header,
}
use storefs.Multipart.Sign as Multi

pub length-hex : (s : Bytes) → length (hex s) ≡ 2 * length s
unfolding hex
length-hex [] = refl
length-hex (x ∷ s) = omega (arith, length-hex s)

length-printed : (size : ℕ) (s : Bytes) → length (printed size s) ≤ size - 1
length-printed size s = omega (arith, length-take (size - 1) s)

-- The lengths of lines, with a newline for each.
abbrev total : List Bytes → ℕ
total [] = 0
total (s ∷ ss) = length s + 1 + total ss

length-lines : (ss : List Bytes) → length (lines ss) ≤ total ss
unfolding lines
length-lines [] = omega arith
length-lines (s ∷ []) = omega arith
length-lines (s ∷ t ∷ ss) =
    omega (arith, length-append s (b'\n' ∷ lines (t ∷ ss)), length-lines (t ∷ ss))

length-canonical_uri :
    (bucket : Bytes) (key : Option Bytes) → length (canonical_uri bucket key) ≤ 2047
unfolding canonical_uri
length-canonical_uri bucket key = length-printed 2048 _

length-canonical_headers :
    (n : ℤ) (host amzdate : Bytes) → length (Multi.canonical_headers n host amzdate) ≤ 4095
unfolding Multi.canonical_headers
length-canonical_headers (pos n) host amzdate = length-printed 4096 (
    codes "content-length:"
    ++ (signed_decimal (pos n)
        ++ (codes "\nhost:" ++ (host ++ (codes "\nx-amz-date:" ++ (amzdate ++ codes "\n"))))))
length-canonical_headers (negsuc n) host amzdate =
    length-printed 4096
      (codes "host:" ++ (host ++ (codes "\nx-amz-date:" ++ (amzdate ++ codes "\n"))))

length-signed_headers : (n : ℤ) → length (Multi.signed_headers n) ≤ 30
unfolding Multi.signed_headers
length-signed_headers (pos n) = omega arith
length-signed_headers (negsuc n) = omega arith

length-canonical_request :
    (method bucket : Bytes) (key : Option Bytes) (query : Bytes) (n : ℤ) (host amzdate : Bytes)
    → length method ≤ 16
    → length query < 1024
    → length (Multi.canonical_request method bucket key (some query) n host amzdate) < 8192
unfolding Multi.canonical_request
length-canonical_request method bucket key query n host amzdate h k = omega (
  arith,
  length-lines (
      method
      ∷ canonical_uri bucket key
      ∷ query
      ∷ Multi.canonical_headers n host amzdate
      ∷ Multi.signed_headers n
      ∷ codes "UNSIGNED-PAYLOAD"
      ∷ []),
  length-canonical_uri bucket key,
  length-canonical_headers n host amzdate,
  length-signed_headers n,
)

length-string_to_sign :
    (amzdate datestamp region hash : Bytes)
    → length amzdate < 64
    → length hash ≡ 64
    → length (string_to_sign amzdate (scope_of datestamp region) hash) < 4096
unfolding string_to_sign scope_of
length-string_to_sign amzdate datestamp region hash h k = omega (
  arith,
  length-lines (
      codes "AWS4-HMAC-SHA256"
      ∷ amzdate
      ∷ printed 128 (datestamp ++ (b'/' ∷ region ++ codes "/s3/aws4_request"))
      ∷ hash
      ∷ []),
  length-printed 128 (datestamp ++ (b'/' ∷ region ++ codes "/s3/aws4_request")),
)

module _ (os : Os) where
  sign_text-ok :
      (cfg : Config) (request signed datestamp amzdate : Bytes)
      → length request < 8192
      → length amzdate < 64
      → length (os.sha256 request) ≡ 32
      → sign_text os cfg request signed datestamp amzdate
        ≡ ok (sign_header os cfg request signed datestamp amzdate)
  unfolding sign_text
  sign_text-ok cfg request signed datestamp amzdate h k l =
      let whole : length (hex (os.sha256 request)) ≡ 64 =
        omega (arith, length-hex (os.sha256 request)) in
      rw
        (
          lt→ltb (length request) 8192 h,
          lt→ltb _ 4096 (
              length-string_to_sign amzdate datestamp cfg.region (hex (os.sha256 request)) k whole),
        )
        refl

  -- Every request of the multipart client gets a signature: neither the canonical request nor the
  -- string to sign is cut by its buffer, for a method of at most 16 bytes, a query below 1024 bytes
  -- and a date below 64, where a hash has 32 bytes.
  pub sign_request-ok :
      (cfg : Config) (method bucket : Bytes) (key : Option Bytes) (query : Bytes) (n : ℤ) (now : ℕ)
      → length method ≤ 16
      → length query < 1024
      → length (stamp_of (os.gmtime now)) < 64
      → ((s : Bytes) → length (os.sha256 s) ≡ 32)
      → Multi.sign_request os cfg method bucket key (some query) n now
        ≡ ok (record {
          host = host_from_endpoint cfg.endpoint 256;
          amzdate = stamp_of (os.gmtime now);
          payload_hash = codes "UNSIGNED-PAYLOAD";
          authorization =
              sign_header os cfg
                (Multi.canonical_request method bucket key
                  (some query)
                  n
                  (host_from_endpoint cfg.endpoint 256)
                  (stamp_of (os.gmtime now)))
                (Multi.signed_headers n)
                (date_of (os.gmtime now))
                (stamp_of (os.gmtime now));
        })
  unfolding Multi.sign_request
  sign_request-ok cfg method bucket key query n now h k l hash =
      let host = host_from_endpoint cfg.endpoint 256 in
      let amzdate = stamp_of (os.gmtime now) in
      let request = Multi.canonical_request method bucket key (some query) n host amzdate in
      rw
        (
          sign_text-ok cfg request (Multi.signed_headers n) (date_of (os.gmtime now)) amzdate
              (length-canonical_request method bucket key query n host amzdate h k) l
              (hash request),
          Multi.sign_request,
        )
        refl
