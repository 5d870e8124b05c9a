-- ===== src/Tests/Texts.antt =====
-- The texts at concrete inputs.
use storefs.Prelude.{
  ◌≤◌, ◌+◌, ◌+◌, ◌*◌, ◌/◌, ◌≡◌, refl, true, false, none, some, [], ◌∷◌, length, map, All, arith,
  List,
}
use storefs.Prelude.Int.{pos}
use storefs.Prelude.Decimal.{decimal}
use storefs.Prelude.Text.{Bytes, codes, IsByte, Lacks, printed}
use storefs.Ws.{ws_send_text}
use storefs.Protocol.{send_qpinfo_client, token_text, token_message}
use storefs.Protocol.Bounds.{token_message-token_text, send_qpinfo_client-qpinfo_message}
use storefs.Base64.{base64_encode}
use storefs.Base64.RoundTrip.{decode, decode-base64_encode, length-base64_encode}
use storefs.QpInfo.{qpinfo_message, parse_qpinfo}
use storefs.QpInfo.RoundTrip.{parse-qpinfo_message}
use storefs.Url.{ws_parse_url}
use storefs.Endpoint.{ws_url_from_endpoint, host_from_endpoint}
use storefs.Endpoint.Laws.{
  endpoint_of, server_text, ws_parse_url-ws_url_from_endpoint, host_from_endpoint_lem,
}
use storefs.Multipart.Xml.{CompletedPart, parse_parts, complete_text, complete_body}
use storefs.Multipart.Xml.RoundTrip.{Plain, key, parse_parts-complete_text}
use storefs.Multipart.Xml.Capacity.{complete_body-complete_text}
use storefs.Tests.Machines.{working, server_info}

abbrev nonce : Bytes
nonce = 0 ∷ 255 ∷ 77 ∷ 200 ∷ []

nonce_bytes : All IsByte nonce
nonce_bytes = (omega arith, (omega arith, (omega arith, (omega arith, tt))))

decode-base64_encode_example : decode (base64_encode nonce) ≡ some nonce
decode-base64_encode_example = decode-base64_encode nonce nonce_bytes

length-base64_encode_example : length (base64_encode nonce) ≡ 4 * ((length nonce + 2) / 3)
length-base64_encode_example = length-base64_encode nonce

gid_bytes : All IsByte server_info.gid
gid_bytes = ground arith

parse-qpinfo_message_example :
    parse_qpinfo (qpinfo_message (codes "qpinfo_server") server_info) ≡ some server_info
parse-qpinfo_message_example =
    parse-qpinfo_message 1201 0 3 3 server_info.gid (omega arith) (omega arith) gid_bytes refl
      (omega arith) (omega arith)

abbrev server : Bytes
server = codes "store.example:9000"

server-Lacks : Lacks b'/' server
server-Lacks = ground arith

host-Lacks : Lacks b'/' (codes "store.example") × Lacks b':' (codes "store.example")
host-Lacks = (ground arith, ground arith)

short_url : length (server_text (codes "store.example") (some 9000)) + 17 ≤ 512
unfolding decimal
short_url = omega arith

ws_parse_url-ws_url_from_endpoint_example :
    ws_parse_url
      (ws_url_from_endpoint
        (endpoint_of true (server_text (codes "store.example") (some 9000)))
        512)
      256
      256
    ≡ some (record { host = codes "store.example"; port = pos 9000; path = codes "/rdma-ctrl" })
ws_parse_url-ws_url_from_endpoint_example =
    ws_parse_url-ws_url_from_endpoint true (codes "store.example") (some 9000) 512 host-Lacks.0
      host-Lacks.1 (omega arith) (omega arith) short_url

host_from_endpoint_lem_example :
    host_from_endpoint (endpoint_of false server) 256 ≡ printed 256 server
host_from_endpoint_lem_example = host_from_endpoint_lem false server 256 server-Lacks

abbrev parts : List CompletedPart
parts =
    record { part_number = pos 1; etag = codes "9b2cf535f27731c9"; size = none }
    ∷ record { part_number = pos 2; etag = codes "\"a1\""; size = none }
    ∷ []

first_etag : Plain (record { part_number = pos 1; etag = codes "9b2cf535f27731c9"; size = none })
first_etag = record {
  number = 1;
  is_number = refl;
  in_range = omega arith;
  ne_nil = λ e. cc;
  opens_no_tag = ground arith;
  fits = omega arith;
}

second_etag : Plain (record { part_number = pos 2; etag = codes "\"a1\""; size = none })
second_etag = record {
  number = 2;
  is_number = refl;
  in_range = omega arith;
  ne_nil = λ e. cc;
  opens_no_tag = ground arith;
  fits = omega arith;
}

parse_parts-complete_text_example : map key (parse_parts (complete_text parts)) ≡ map key parts
parse_parts-complete_text_example = parse_parts-complete_text parts (first_etag, (second_etag, tt))

complete_body-complete_text_example : complete_body parts ≡ complete_text parts
complete_body-complete_text_example =
    complete_body-complete_text parts ((omega arith, omega arith), ((omega arith, omega arith), tt))

token_message-token_text_example : token_message 4096 77 0 65536 ≡ token_text 4096 77 0 65536
token_message-token_text_example =
    token_message-token_text 4096 77 0 65536 (omega arith) (omega arith) (omega arith) (omega arith)

send_qpinfo_client-qpinfo_message_example :
    send_qpinfo_client working 4 server_info
    ≡ ws_send_text working 4 (qpinfo_message (codes "qpinfo_client") server_info)
send_qpinfo_client-qpinfo_message_example =
    send_qpinfo_client-qpinfo_message working 4 1201 0 3 3 server_info.gid (omega arith)
      (omega arith) gid_bytes refl (omega arith) (omega arith)
