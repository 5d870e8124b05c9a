-- ===== src/Session.antt =====
-- The RDMA session of examples/rdma/c/rdmalib.c: the handshake that brings a queue pair up over the
-- websocket, the two setups on top of it, and the release of all that they hold.
pub mod Held
pub mod BringUp
pub mod Objects
pub mod Share
pub mod Leaks
pub mod States
use storefs.Prelude.{ℕ, ◌%◌, ◌^◌, Bool, not, Option, none, some, List, [], ◌∷◌, ◌==◌}
use storefs.Prelude.Int.{ℤ, pos}
use storefs.Prelude.Text.{Bytes}
use storefs.Os.{
  QpInitAttr, Resource, Access, local_write, remote_read, remote_write, Event, acquired, released,
  registered, Trace, Os, Error, out_of_memory, reg_mr_failed, token_not_sent, alloc_pd_failed,
  create_cq_failed, create_qp_failed, open_device_failed, qp_info_not_sent, qp_to_init_failed,
  qp_to_rtr_failed, qp_to_rts_failed, Result, ok, err, Prog, Cmd, pure, fail, emit, ◌>>=◌, ◌>>◌,
  when◌then◌else◌, taken, or_else, report,
}
use storefs.QpInfo.{QpInfo}
use storefs.Ws.{ws_dial, ws_close}
use storefs.Verbs.{
  v_open_device, v_qp_to_init, v_query_gid, v_query_mtu_enum, v_qp_to_rtr, v_qp_to_rts,
}
use storefs.Protocol.{
  send_register_request, recv_register_response, send_qpinfo_client, recv_qpinfo_server, send_token,
}

-- `struct rdma_session`; `none` is NULL. `block` is the memory that holds it.
pub record Session : Type 0 where
  pub block : ℕ
  pub ctx : Option ℕ
  pub pd : Option ℕ
  pub cq : Option ℕ
  pub qp : Option ℕ
  pub mr : Option ℕ

-- `calloc(1, sizeof(*s))`
abbrev pub blank : ℕ → Session
blank b = record { block = b; ctx = none; pd = none; cq = none; qp = none; mr = none }

-- What the handshake works on: the session that it fills, and the trace.
pub record Work : Type 0 where
  pub session : Session
  pub trace : Trace

abbrev pub lifted : {A : Type 0} → Session → Result A × Trace → Result A × Work
lifted s p = (p.0, record { session = s; trace = p.1 })

-- A step that leaves the session alone.
abbrev pub lift : {A : Type 0} → Cmd A → Prog Work A
lift m w = lifted w.session (m w.trace)

abbrev pub set_ctx : ℕ → Prog Work (Unit {0})
set_ctx c w = (ok tt, record w { session = record w.session { ctx = some c } })

abbrev pub set_pd : ℕ → Prog Work (Unit {0})
set_pd p w = (ok tt, record w { session = record w.session { pd = some p } })

abbrev pub set_cq : ℕ → Prog Work (Unit {0})
set_cq c w = (ok tt, record w { session = record w.session { cq = some c } })

abbrev pub set_qp : ℕ → Prog Work (Unit {0})
set_qp q w = (ok tt, record w { session = record w.session { qp = some q } })

abbrev release : (ℕ → Resource) → Option ℕ → Cmd (Unit {0})
release r none = pure tt
release r (some x) = emit (released (r x))

-- `cleanup`: what the session holds, in the reverse of the order in which it was taken.
pub cleanup : Session → Cmd (Unit {0})
cleanup s = do
  release Resource.mr s.mr
  release Resource.qp s.qp
  release Resource.cq s.cq
  release Resource.pd s.pd
  release Resource.ctx s.ctx
  emit (released (Resource.session s.block))

unfoldable pub rdma_session_destroy : Session → Cmd (Unit {0})
unfolding cleanup
rdma_session_destroy s = cleanup s

-- An answer that must be there, or 0.
abbrev present : Error → Option ℕ → Cmd ℕ
present e none t = (err e, t)
present e (some x) t = (ok x, t)

abbrev zero_or : Error → ℕ → Cmd (Unit {0})
zero_or e code = when code == 0 then pure tt else fail e

-- The attributes of the queue pair: one request of one piece in each direction.
pub rc_attr : ℕ → QpInitAttr
rc_attr q = record {
  cq = q;
  max_send_wr = 1;
  max_recv_wr = 1;
  max_send_sge = 1;
  max_recv_sge = 1;
  max_inline_data = 0;
  sq_sig_all = 0;
}

module _ (os : Os) where
  -- Each failure behind `ws_dial` closes the socket before it is reported.
  abbrev closing : {A : Type 0} → ℕ → Prog Work A → Prog Work A
  closing fd m = or_else m (lift (ws_close os fd))

  -- The registration of the request.
  pub register : ℕ → Bytes → Prog Work (Unit {0})
  register fd request_id = do
    closing fd (lift (send_register_request os fd request_id))
    closing fd (lift (recv_register_response os fd))

  -- The device, the protection domain, the completion queue and the queue pair.
  pub open_objects : ℕ → Option Bytes → Prog Work (ℕ × ℕ)
  open_objects fd dev_name = do
    found ← lift (v_open_device os dev_name)
    c ← closing fd (lift (present open_device_failed found))
    set_ctx c
    p ← closing fd (lift (λ t. taken Resource.pd alloc_pd_failed (os.alloc_pd t c) t))
    set_pd p
    q ← closing fd (lift (λ t. taken Resource.cq create_cq_failed (os.create_cq t c 2) t))
    set_cq q
    qp ←
        closing fd (lift (λ t. taken Resource.qp create_qp_failed (os.create_qp t p (rc_attr q)) t))
    set_qp qp
    pure (c, qp)

  -- From RESET to INIT, the exchange of the two sides' addresses, then RTR and RTS.
  pub bring_up : (fd c qp port gid_index : ℕ) → Prog Work (Unit {0})
  bring_up fd c qp port gid_index = do
    code ← lift (v_qp_to_init os qp port)
    closing fd (lift (zero_or qp_to_init_failed code))
    gid ← closing fd (lift (v_query_gid os c port gid_index))
    mtu_enum ← closing fd (lift (v_query_mtu_enum os c port))
    closing fd (
        lift (
          report qp_info_not_sent (
            send_qpinfo_client os fd (record {
              qpn = os.qp_num qp;
              lid = 0;
              gid = gid;
              gid_idx = gid_index;
              mtu_enum = pos mtu_enum;
            }))))
    srv ← closing fd (lift (recv_qpinfo_server os fd))
    code ← lift (v_qp_to_rtr os qp srv.qpn srv.lid srv.gid port srv.gid_idx srv.mtu_enum)
    closing fd (lift (zero_or qp_to_rtr_failed code))
    code ← lift (v_qp_to_rts os qp)
    closing fd (lift (zero_or qp_to_rts_failed code))

  -- On success the open socket, and the session with all but the memory region; on failure the
  -- session as far as it was filled.
  pub rdma_handshake : Bytes → Option Bytes → (port gid_index : ℕ) → Bytes → Prog Work ℕ
  unfolding register open_objects bring_up
  rdma_handshake ws_url dev_name port gid_index request_id = do
    fd ← lift (ws_dial os ws_url)
    register fd request_id
    (c, qp) ← open_objects fd dev_name
    bring_up fd c qp port gid_index
    pure fd

  -- The memory region, in the session.
  register_region : Session → (buf len : ℕ) → List Access → Cmd ℕ
  register_region s buf len flags t = elim s.pd [
    | none ↦ (err reg_mr_failed, t)
    | some p ↦
        (do
          m ← λ t. taken Resource.mr reg_mr_failed (os.reg_mr t p buf len flags) t
          emit (registered m flags)
          pure m)
          t
  ]

  -- Behind the handshake: the region and the token, and the end of the websocket. A failure closes
  -- the socket and gives back all that the session holds.
  pub share_buffer : Session → (fd buf len : ℕ) → List Access → Cmd Session
  unfolding register_region cleanup
  share_buffer s fd buf len flags = do
    m ← or_else (register_region s buf len flags) (ws_close os fd >> cleanup s)
    let s' = record s { mr = some m }
    or_else (report token_not_sent (send_token os fd (buf % 2 ^ 64) (os.rkey m) 0 (len % 2 ^ 64)))
        (ws_close os fd >> cleanup s')
    ws_close os fd
    pure s'

  -- What a setup makes of the outcome of its handshake.
  after_handshake : (buf len : ℕ) → List Access → Result ℕ × Work → Result Session × Trace
  unfolding share_buffer
  after_handshake buf len flags p = elim p.0 [
    | ok fd ↦ share_buffer p.1.session fd buf len flags p.1.trace
    | err e ↦ (err e, (cleanup p.1.session p.1.trace).1)
  ]

  setup :
      Bytes
      → Option Bytes
      → (port gid_index : ℕ) → Bytes
      → (buf len : ℕ) → List Access
      → Cmd Session
  unfolding rdma_handshake after_handshake
  setup ws_url dev_name port gid_index request_id buf len flags = do
    b ← λ t. taken Resource.session out_of_memory (os.malloc t 40) t
    λ t. after_handshake buf len flags (
        rdma_handshake ws_url dev_name port gid_index request_id
          (record { session = blank b; trace = t }))

  -- The receive side: the server writes into the buffer.
  pub rdma_recv_setup :
      Bytes → Option Bytes → (port gid_index : ℕ) → Bytes → (buf len : ℕ) → Cmd Session
  unfolding setup
  rdma_recv_setup ws_url dev_name port gid_index request_id buf len =
      setup ws_url dev_name port gid_index request_id buf len
        (local_write ∷ remote_read ∷ remote_write ∷ [])

  -- The send side: the server reads from the buffer.
  unfoldable pub rdma_send_setup :
      Bytes → Option Bytes → (port gid_index : ℕ) → Bytes → (buf len : ℕ) → Cmd Session
  unfolding setup
  rdma_send_setup ws_url dev_name port gid_index request_id buf len =
      setup ws_url dev_name port gid_index request_id buf len (local_write ∷ remote_read ∷ [])
