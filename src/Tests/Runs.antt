-- ===== src/Tests/Runs.antt =====
-- Requests that are answered, and an upload that fails and is aborted.
use storefs.Prelude.{
  Option, ◌^◌, ◌-◌, ◌≡◌, ◌≤◌, ◌<◌, refl, none, some, [], ◌∷◌, length, arith, true, false, List,
}
use storefs.Prelude.Int.{pos}
use storefs.Prelude.Text.{Bytes, codes, c_string, strstr, starts_with}
use storefs.Endpoint.{host_from_endpoint}
use storefs.Os.{
  Trace, Verb, part_out_of_range, file, ok, err, acquired, released, requested, easy, block, slist,
}
use storefs.Sign.{Config, Signed, sign_header, date_of, stamp_of}
use storefs.Sign.Bounds.{sign_request-ok}
use storefs.Multipart.Sign as Multi
use storefs.Response.{wanted_cap, grow, write_response, collect, empty}
use storefs.Headers.{free_headers, append_header, append_headers}
use storefs.Http.{
  signed_length, Answer, s3_request, request_headers, transfer, transfer_with, rejected, free_body,
}
use storefs.Http.Success.{Received, request_of, s3_request-concat}
use storefs.Http.Last.{last_request}
use storefs.Multipart.Xml.{complete_body, find_tag_text, parse_upload_id}
use storefs.Multipart.Store.{Listed}
use storefs.Multipart.Requests.{s3_complete_multipart, upload_query, exchange, s3_create_multipart}
use storefs.Multipart.Plan.{num_parts, check_part, chosen, slices, upload_loop}
use storefs.Multipart.Upload.{find_slices, sized, fill_parts, upload_parts_rdma}
use storefs.Multipart.Main.{config_of, all_action}
use storefs.Multipart.Main.Order.{all_action-s3_abort_multipart, all_action-s3_complete_multipart}
use storefs.Multipart.Options.{Options}
use storefs.Tests.Requests.{answering, shop, opts}
use storefs.Tests.Signing.{short_date, whole_hash}

-- The signature of a request with the query `query`.
abbrev signed : Config → (method query : Bytes) → (body : Option Bytes) → Signed
signed cfg method query body = record {
  host = host_from_endpoint cfg.endpoint 256;
  amzdate = stamp_of (answering.gmtime 1700000000);
  payload_hash = codes "UNSIGNED-PAYLOAD";
  authorization =
      sign_header answering cfg
        (Multi.canonical_request method (codes "b") (some (codes "o")) (some query)
          (signed_length body) (host_from_endpoint cfg.endpoint 256)
          (stamp_of (answering.gmtime 1700000000)))
        (Multi.signed_headers (signed_length body)) (date_of (answering.gmtime 1700000000))
        (stamp_of (answering.gmtime 1700000000));
}

signed_lem :
    (cfg : Config) (method query : Bytes) (body : Option Bytes)
    → length method ≤ 16
    → length query < 1024
    → Multi.sign_request answering cfg method
        (codes "b")
        (some (codes "o"))
        (some query)
        (signed_length body)
        1700000000
      ≡ ok (signed cfg method query body)
signed_lem cfg method query body h k =
    sign_request-ok answering cfg method (codes "b") (some (codes "o")) query (signed_length body)
      1700000000 h k short_date whole_hash

-- What the server's answer leaves.
abbrev answer : Answer
answer = record {
  failure = none;
  body = record { bytes = codes "<UploadId>u1</UploadId>"; cap = 4096 };
}

body_lem : collect (λ n. true) (codes "<UploadId>" ∷ codes "u1</UploadId>" ∷ []) empty ≡ answer.body
unfolding collect write_response wanted_cap grow
body_lem = refl

-- The trace that the request leaves.
abbrev after_request : Config → (method query : Bytes) → Trace → Trace
after_request cfg method query t =
    released (easy 3)
    ∷ released (slist 0)
    ∷ acquired (block 1)
    ∷ requested (
        request_of cfg method (codes "b") (some (codes "o")) (some query) none none
          (signed cfg method query none))
    ∷ acquired (easy 3)
    ∷ acquired (slist 0)
    ∷ t

transfer_run :
    (url h : Bytes) (hs : List Bytes) (verb : Verb) (t : Trace)
    → transfer answering
        (record { url = url; headers = h ∷ hs; verb = verb; ignore_content_length = false })
        3
        t
      ≡ (
        ok answer,
        released (easy 3)
            ∷ released (slist 0)
            ∷ acquired (block 1)
            ∷ requested
                (record { url = url; headers = h ∷ hs; verb = verb; ignore_content_length = false })
            ∷ acquired (easy 3)
            ∷ t,
      )
unfolding transfer rejected free_headers
transfer_run url h hs verb t = rw (transfer, body_lem) refl

run_lem :
    (cfg : Config) (method query : Bytes) (t : Trace)
    → length method ≤ 16
    → length query < 1024
    → s3_request answering cfg method (codes "b") (some (codes "o")) (some query) none none t
      ≡ (ok answer, after_request cfg method query t)
unfolding s3_request transfer_with request_headers append_headers append_header
run_lem cfg method query t h k =
    rw (s3_request, signed_lem cfg method query none h k) (transfer_run _ _ _ _ _)

s3_request-concat_example :
    (s : Signed) × (t0 : Trace) × Received
      (answering.perform t0 (
        request_of shop
          (codes "GET")
          (codes "b")
          (some (codes "o"))
          (some (codes "uploads="))
          none
          none
          s))
      answer
s3_request-concat_example =
    s3_request-concat answering shop (codes "GET") (codes "b") (some (codes "o"))
      (some (codes "uploads=")) none none answer []
      (after_request shop (codes "GET") (codes "uploads=") []) (λ t h. refl)
      (run_lem shop (codes "GET") (codes "uploads=") [] (omega arith) (omega arith)) refl

abbrev created : Trace
created = released (block 1) ∷ after_request (config_of opts) (codes "POST") (codes "uploads=") []

id_lem : parse_upload_id (codes "<UploadId>u1</UploadId>") 256 ≡ some (codes "u1")
unfolding parse_upload_id find_tag_text strstr starts_with
id_lem = refl

created_lem :
    s3_create_multipart answering (config_of opts) (codes "b") (some (codes "o")) 256 []
    ≡ (ok (codes "u1"), created)
unfolding s3_create_multipart exchange free_body c_string
created_lem =
    rw
      (
        s3_create_multipart,
        exchange,
        run_lem (config_of opts) (codes "POST") (codes "uploads=") [] (omega arith) (omega arith),
        id_lem,
      )
      refl

-- A part that the file does not have.
abbrev no_such_part : Options
no_such_part = record opts { part = pos 7 }

abbrev lost : Trace
lost = released (file 4) ∷ acquired (file 4) ∷ created

lost_lem :
    upload_parts_rdma answering (config_of opts) no_such_part (codes "u1") created
    ≡ (err part_out_of_range, lost)
unfolding upload_parts_rdma find_slices sized check_part num_parts
lost_lem = refl

short_id : length (upload_query (codes "u1")) < 1024
unfolding upload_query
short_id = omega arith

all_action-s3_abort_multipart_example :
    ((all_action answering no_such_part []).0 ≡ err part_out_of_range)
    × (last_request (all_action answering no_such_part []).1
        ≡ some (
            request_of
              (config_of opts)
              (codes "DELETE")
              (codes "b")
              (some (codes "o"))
              (some (upload_query (codes "u1")))
              none
              none
              (signed (config_of opts) (codes "DELETE") (upload_query (codes "u1")) none)))
all_action-s3_abort_multipart_example =
    all_action-s3_abort_multipart answering no_such_part (codes "f.bin") (codes "u1")
      part_out_of_range [] created lost
      (signed (config_of opts) (codes "DELETE") (upload_query (codes "u1")) none) (λ t h. refl)
      (λ t. (3, refl)) refl created_lem lost_lem
      (signed_lem (config_of opts) (codes "DELETE") (upload_query (codes "u1")) none (omega arith)
        short_id)

-- A part size with which the file has no part, so that the upload has nothing to do.
abbrev no_parts_at_all : Options
no_parts_at_all = record opts { part = pos 0; part_size = pos (2 ^ 63 - 1) }

abbrev nothing_sent : Listed
nothing_sent = record { store = 9; parts = [] }

abbrev sent_trace : Trace
sent_trace = released (file 4) ∷ acquired (block 9) ∷ acquired (file 4) ∷ created

sent_lem :
    upload_parts_rdma answering (config_of opts) no_parts_at_all (codes "u1") created
    ≡ (ok nothing_sent, sent_trace)
unfolding upload_parts_rdma find_slices sized check_part num_parts chosen slices fill_parts
    upload_loop
sent_lem = refl

all_action-s3_complete_multipart_example :
    ((all_action answering no_parts_at_all []).0
      ≡ (s3_complete_multipart answering
          (config_of opts)
          (codes "b")
          (some (codes "o"))
          (codes "u1")
          []
          sent_trace).0)
    × (last_request (all_action answering no_parts_at_all []).1
        ≡ some (
            request_of
              (config_of opts)
              (codes "POST")
              (codes "b")
              (some (codes "o"))
              (some (upload_query (codes "u1")))
              (some (complete_body []))
              none
              (signed
                (config_of opts)
                (codes "POST")
                (upload_query (codes "u1"))
                (some (complete_body [])))))
all_action-s3_complete_multipart_example =
    all_action-s3_complete_multipart answering no_parts_at_all (codes "f.bin") (codes "u1")
      nothing_sent 9 [] created sent_trace
      (signed (config_of opts) (codes "POST") (upload_query (codes "u1")) (some (complete_body [])))
      (λ t h. refl) (λ t. (3, refl)) refl created_lem sent_lem refl
      (signed_lem (config_of opts) (codes "POST") (upload_query (codes "u1"))
        (some (complete_body [])) (omega arith) short_id)
