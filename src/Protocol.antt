-- ===== src/Protocol.antt =====
-- The messages of the RDMA control channel, from examples/rdma/c/rdmalib.c.
pub mod Bounds
pub mod Leaks
pub mod States
use storefs.Prelude.{ℕ, Bool, true, false, Option, none, some, [], ◌∷◌, ◌++◌}
use storefs.Prelude.Text.{Bytes, codes, strstr, printed, c_string}
use storefs.Prelude.Decimal.{decimal}
use storefs.Json.{json_get_bool, json_get_string}
use storefs.Os.{
  Os, Trace, Error, no_register_response, unexpected_message, registration_failed, no_qp_info,
  silent, Result, ok, err, Cmd, pure, fail, ◌>>=◌, ◌>>◌, report,
}
use storefs.QpInfo.{QpInfo, qpinfo_message, parse_qpinfo}
use storefs.Ws.{ws_send_text, ws_recv_text}

unfoldable pub register_request : Bytes → Bytes
register_request request_id = printed 256 (
    codes "{\"type\":\"register_request\",\"data\":{\"request_id\":\""
    ++ (request_id ++ codes "\"}}"))

abbrev text_or_empty : Option Bytes → Bytes
text_or_empty none = []
text_or_empty (some s) = s

-- What the answer to a registration says; `success` is 0 where the key is missing, and `emsg` empty.
unfoldable pub check_register_response : Bytes → Cmd (Unit {0})
check_register_response buf = elim (strstr (codes "\"register_response\"") buf) [
  | none ↦ fail unexpected_message
  | some _ ↦ elim (json_get_bool buf (codes "success")) [
    | some true ↦ pure tt
    | some false ↦
        fail (registration_failed (text_or_empty (json_get_string buf (codes "error") 256)))
    | none ↦ fail (registration_failed (text_or_empty (json_get_string buf (codes "error") 256)))
  ]
]

pub token_text : (addr rkey start len : ℕ) → Bytes
token_text addr rkey start len =
    codes "{\"type\":\"token\",\"data\":{\"addr\":"
    ++ (decimal addr
        ++ (codes ",\"rkey\":"
            ++ (decimal rkey
                ++ (codes ",\"start\":"
                    ++ (decimal start ++ (codes ",\"length\":" ++ (decimal len ++ codes "}}")))))))

unfoldable pub token_message : (addr rkey start len : ℕ) → Bytes
unfolding token_text
token_message addr rkey start len = printed 256 (token_text addr rkey start len)

-- The server's message about its queue pair.
unfoldable pub check_qpinfo_server : Bytes → Cmd QpInfo
check_qpinfo_server buf = elim (strstr (codes "\"qpinfo_server\"") buf) [
  | none ↦ fail unexpected_message
  | some _ ↦ elim (parse_qpinfo buf) [ none ↦ fail silent | some q ↦ pure q ]
]

module _ (os : Os) where
  unfoldable pub send_register_request : ℕ → Bytes → Cmd (Unit {0})
  send_register_request fd request_id = ws_send_text os fd (register_request request_id)

  unfoldable pub recv_register_response : ℕ → Cmd (Unit {0})
  recv_register_response fd = do
    buf ← report no_register_response (ws_recv_text os fd 1024)
    check_register_response (c_string buf)

  unfoldable pub send_qpinfo_client : ℕ → QpInfo → Cmd (Unit {0})
  send_qpinfo_client fd q =
      ws_send_text os fd (printed 512 (qpinfo_message (codes "qpinfo_client") q))

  unfoldable pub recv_qpinfo_server : ℕ → Cmd QpInfo
  recv_qpinfo_server fd = do
    buf ← report no_qp_info (ws_recv_text os fd 1024)
    check_qpinfo_server (c_string buf)

  unfoldable pub send_token : ℕ → ℕ → ℕ → ℕ → ℕ → Cmd (Unit {0})
  send_token fd addr rkey start len = ws_send_text os fd (token_message addr rkey start len)
