-- ===== src/Tests/Sent.antt =====
-- An upload of one part of a file that succeeds, from the opening of the file to the ETag: the dial, the
-- handshake, the bring-up of the queue pair, the token and the request.
use storefs.Prelude.{◌≡◌, refl, some, List, [], ◌∷◌}
use storefs.Prelude.Int.{pos}
use storefs.Prelude.Text.{codes}
use storefs.Os.{ok}
use storefs.Multipart.Plan.{Slice}
use storefs.Multipart.Store.{Listed}
use storefs.Multipart.Upload.Parts.{Describes, SlicesOf, upload_parts_rdma-Describes}
use storefs.Multipart.Main.{config_of}
use storefs.Tests.Requests.{zero_bytes, answering, opts}
use storefs.Ws.{
  rand_byte, rand_bytes, write_all, read_some, read_loop, read_full, send_frame, ws_send_text,
  ws_close, recv_length, ws_recv_text, connect_any, read_response, resolve, upgrade, ws_dial,
}
use storefs.Protocol.{
  register_request, check_register_response, token_message, check_qpinfo_server,
  send_register_request, recv_register_response, send_qpinfo_client, recv_qpinfo_server, send_token,
}
use storefs.Session.{rdma_session_destroy, rdma_send_setup}
use storefs.Verbs.{
  v_open_device, v_qp_to_init, v_qp_to_rtr, v_qp_to_rts, mtu_or_default, v_query_mtu_enum,
  v_query_gid,
}
use storefs.Json.{json_find_key, json_get_u64, json_get_bool, json_get_bytes16, array_bytes}
use storefs.QpInfo.{qpinfo_message, parse_qpinfo}
use storefs.Frame.{frame_header, masked_from, big_endian}
use storefs.Base64.{base64_encode}
use storefs.Url.{ws_parse_url, upgrade_request}
use storefs.Endpoint.{ws_url_from_endpoint, host_from_endpoint}
use storefs.Multipart.Upload.{upload_one_part_rdma, upload_parts_rdma}
use storefs.Multipart.Sign.{sign_request}
use storefs.Multipart.Requests.{s3_upload_part_empty}
use storefs.Sign.{lines}
use storefs.Http.{free_body, s3_request}
use storefs.Response.{wanted_cap, collect}
use storefs.Prelude.Text.{same_text, strstr, strchr, c_string, hex}
use storefs.Prelude.Decimal.{decimal, atoi}

abbrev sent : Listed
sent = record {
  store = 9;
  parts = record { part_number = pos 2; etag = codes "\"part-2\""; size = some (pos 8) } ∷ [];
}

sent_lem : (upload_parts_rdma answering (config_of opts) opts (codes "u1") []).0 ≡ ok sent
unfolding zero_bytes rand_byte rand_bytes write_all read_some read_loop read_full send_frame
    ws_send_text ws_close recv_length ws_recv_text connect_any read_response resolve upgrade ws_dial
    register_request check_register_response token_message check_qpinfo_server send_register_request
    recv_register_response send_qpinfo_client recv_qpinfo_server send_token rdma_session_destroy
    rdma_send_setup v_open_device v_qp_to_init v_qp_to_rtr v_qp_to_rts mtu_or_default
    v_query_mtu_enum v_query_gid json_find_key json_get_u64 json_get_bool json_get_bytes16
    array_bytes qpinfo_message parse_qpinfo frame_header masked_from big_endian base64_encode
    ws_parse_url upgrade_request ws_url_from_endpoint host_from_endpoint upload_one_part_rdma
    upload_parts_rdma sign_request s3_upload_part_empty lines free_body s3_request wanted_cap
    collect same_text strstr strchr c_string hex decimal atoi
sent_lem = refl

upload_parts_rdma-Describes_example :
    (ss : List Slice) × Describes ss sent.parts × SlicesOf answering opts 2 ss
upload_parts_rdma-Describes_example =
    upload_parts_rdma-Describes answering (config_of opts) opts (codes "u1") 2 sent [] refl sent_lem
