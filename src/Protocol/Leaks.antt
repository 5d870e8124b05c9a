-- ===== src/Protocol/Leaks.antt =====
-- The messages, and what is held when they are done.
use storefs.Prelude.{ℕ, arith}
use storefs.Prelude.Text.{Bytes, c_string}
use storefs.Os.{Os}
use storefs.Os.Live.{Neutral, Neutral-bind, Neutral-report}
use storefs.QpInfo.{QpInfo}
use storefs.Ws.Leaks.{Neutral-ws_send_text, Neutral-ws_recv_text}
use storefs.Protocol.{
  check_register_response, check_qpinfo_server, send_register_request, recv_register_response,
  send_qpinfo_client, recv_qpinfo_server, send_token,
}

Neutral-check_register_response : (buf : Bytes) → Neutral (check_register_response buf)
unfolding check_register_response
Neutral-check_register_response buf = record { keeps = λ xs t h. ground arith }

Neutral-check_qpinfo_server : (buf : Bytes) → Neutral (check_qpinfo_server buf)
unfolding check_qpinfo_server
Neutral-check_qpinfo_server buf = record { keeps = λ xs t h. ground arith }

module _ (os : Os) (fd : ℕ) where
  pub Neutral-send_register_request : (id : Bytes) → Neutral (send_register_request os fd id)
  unfolding send_register_request
  Neutral-send_register_request id = Neutral-ws_send_text os fd _

  pub Neutral-recv_register_response : Neutral (recv_register_response os fd)
  unfolding recv_register_response
  Neutral-recv_register_response =
      Neutral-bind (Neutral-report _ (Neutral-ws_recv_text os fd 1024))
        λ buf. Neutral-check_register_response (c_string buf)

  pub Neutral-send_qpinfo_client : (q : QpInfo) → Neutral (send_qpinfo_client os fd q)
  unfolding send_qpinfo_client
  Neutral-send_qpinfo_client q = Neutral-ws_send_text os fd _

  pub Neutral-recv_qpinfo_server : Neutral (recv_qpinfo_server os fd)
  unfolding recv_qpinfo_server
  Neutral-recv_qpinfo_server =
      Neutral-bind (Neutral-report _ (Neutral-ws_recv_text os fd 1024))
        λ buf. Neutral-check_qpinfo_server (c_string buf)

  pub Neutral-send_token :
      (addr rkey start len : ℕ) → Neutral (send_token os fd addr rkey start len)
  unfolding send_token
  Neutral-send_token addr rkey start len = Neutral-ws_send_text os fd _
