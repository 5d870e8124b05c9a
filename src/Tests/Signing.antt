-- ===== src/Tests/Signing.antt =====
-- Signatures at a concrete time.
use storefs.Prelude.{◌≡◌, ◌<◌, none, some, arith, length, length-take, ◌++◌, length-append}
use storefs.Prelude.Int.{negsuc}
use storefs.Prelude.Text.{Bytes, codes}
use storefs.Prelude.Decimal.{decimal}
use storefs.Endpoint.{host_from_endpoint}
use storefs.Os.{ok}
use storefs.Sign as One
use storefs.Sign.{Config, Signed, date_of, stamp_of}
use storefs.Sign.Agree.{sign_request-Multi}
use storefs.Sign.Bounds.{sign_request-ok}
use storefs.Multipart.Sign as Multi
use storefs.Tests.Machines.{zeros, working}
use storefs.Tests.Requests.{shop}

pub short_date : length (stamp_of (working.gmtime 1700000000)) < 64
unfolding stamp_of decimal
short_date = omega arith

sign_request-Multi_example :
    One.sign_request working shop (codes "GET") (codes "b") (some (codes "o")) 1700000000
    ≡ Multi.sign_request working shop
        (codes "GET")
        (codes "b")
        (some (codes "o"))
        none
        (negsuc 0)
        1700000000
sign_request-Multi_example =
    sign_request-Multi working shop (codes "GET") (codes "b") (some (codes "o")) 1700000000
      short_date

pub whole_hash : (s : Bytes) → length (working.sha256 s) ≡ 32
whole_hash s = omega (arith, length-append s zeros, length-take 32 (s ++ zeros))

sign_request-ok_example :
    Multi.sign_request working shop
      (codes "GET")
      (codes "b")
      (some (codes "o"))
      (some (codes "uploads="))
      (negsuc 0)
      1700000000
    ≡ ok (record {
      host = host_from_endpoint shop.endpoint 256;
      amzdate = stamp_of (working.gmtime 1700000000);
      payload_hash = codes "UNSIGNED-PAYLOAD";
      authorization =
          One.sign_header working shop
            (Multi.canonical_request
              (codes "GET")
              (codes "b")
              (some (codes "o"))
              (some (codes "uploads="))
              (negsuc 0)
              (host_from_endpoint shop.endpoint 256)
              (stamp_of (working.gmtime 1700000000)))
            (Multi.signed_headers (negsuc 0))
            (date_of (working.gmtime 1700000000))
            (stamp_of (working.gmtime 1700000000));
    })
sign_request-ok_example =
    sign_request-ok working shop (codes "GET") (codes "b") (some (codes "o")) (codes "uploads=")
      (negsuc 0) 1700000000 (omega arith) (omega arith) short_date whole_hash
