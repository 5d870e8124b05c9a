-- ===== src/Protocol/States.antt =====
-- The messages leave queue pairs alone.
use storefs.Prelude.{ℕ, arith, List}
use storefs.Prelude.Text.{Bytes, c_string, printed, codes}
use storefs.Os.{QpState, Os, no_qp_info}
use storefs.Os.Live.{bind}
use storefs.Os.States.{Still, still_lem, report_lem}
use storefs.QpInfo.{QpInfo, qpinfo_message}
use storefs.Ws.States.{ws_send_text_lem, ws_recv_text_lem}
use storefs.Protocol.{check_qpinfo_server, send_qpinfo_client, recv_qpinfo_server}

module _ (os : Os) (ss : List QpState) (fd : ℕ) where
  check_lem : (buf : Bytes) → Still ss (check_qpinfo_server buf)
  unfolding check_qpinfo_server
  check_lem buf = still_lem (check_qpinfo_server buf) λ t h. ground arith

  pub send_qpinfo_client_lem : (q : QpInfo) → Still ss (send_qpinfo_client os fd q)
  unfolding send_qpinfo_client
  send_qpinfo_client_lem q =
      ws_send_text_lem os ss fd (printed 512 (qpinfo_message (codes "qpinfo_client") q))

  pub recv_qpinfo_server_lem : Still ss (recv_qpinfo_server os fd)
  unfolding recv_qpinfo_server
  recv_qpinfo_server_lem =
      bind (report_lem no_qp_info (ws_recv_text_lem os ss fd 1024)) λ buf. check_lem (c_string buf)
