-- ===== src/Session/BringUp.antt =====
-- The registration of a request and the bring-up of a queue pair, and what they leave live.
use storefs.Prelude.{ℕ, List, [], ◌∷◌, ◌==◌}
use storefs.Prelude.Int.{pos}
use storefs.Prelude.Text.{Bytes}
use storefs.Os.{
  Resource, QpAttr, QpField, Os, Error, qp_info_not_sent, qp_to_init_failed, qp_to_rtr_failed,
  qp_to_rts_failed, Cmd,
}
use storefs.Os.Live.{
  Triple, bind, Neutral, Neutral-pure, Neutral-fail, Neutral-when, Neutral-report,
}
use storefs.QpInfo.{QpInfo}
use storefs.Verbs.{modify_qp, v_qp_to_init, v_qp_to_rtr, v_qp_to_rts}
use storefs.Verbs.Leaks.{Neutral-v_query_gid, Neutral-v_query_mtu_enum, modify_lem}
use storefs.Protocol.Leaks.{
  Neutral-send_register_request, Neutral-recv_register_response, Neutral-send_qpinfo_client,
  Neutral-recv_qpinfo_server,
}
use storefs.Session.{Session, lift, zero_or, closing, register, bring_up}
use storefs.Session.Held.{At, Failed, Triple-lift, Neutral-closing}

module _ (os : Os) (fd : ℕ) where
  Neutral-zero_or : (e : Error) (code : ℕ) → Neutral (zero_or e code)
  Neutral-zero_or e code = Neutral-when (code == 0) (Neutral-pure tt) (Neutral-fail e)

  pub register_lem :
      (s : Session) (rest : List Resource) (id : Bytes)
      → Triple
          (At s (Resource.socket fd ∷ rest))
          (register os fd id)
          (λ _. At s (Resource.socket fd ∷ rest))
          (Failed s.block rest)
  unfolding register
  register_lem s rest id =
      bind (Neutral-closing os fd s rest (Neutral-send_register_request os fd id))
        λ _. Neutral-closing os fd s rest (Neutral-recv_register_response os fd)

  -- A request to the queue pair, which does not fail in itself.
  abbrev Requested : Session → List Resource → Cmd ℕ → Type 0
  Requested s rest m =
      Triple (At s (Resource.socket fd ∷ rest)) (lift m) (λ _. At s (Resource.socket fd ∷ rest))
        (Failed s.block rest)

  modified_lem :
      (s : Session) (rest : List Resource) (qp : ℕ) (attr : QpAttr) (mask : List QpField)
      → Requested s rest (modify_qp os qp attr mask)
  modified_lem s rest qp attr mask =
      Triple-lift os fd s rest (λ _. []) (modify_lem os _ qp attr mask _)

  init_lem :
      (s : Session) (rest : List Resource) (qp port : ℕ)
      → Requested s rest (v_qp_to_init os qp port)
  unfolding v_qp_to_init
  init_lem s rest qp port = modified_lem s rest qp _ _

  rtr_lem :
      (s : Session) (rest : List Resource) (qp port : ℕ) (srv : QpInfo)
      → Requested s rest (v_qp_to_rtr os qp srv.qpn srv.lid srv.gid port srv.gid_idx srv.mtu_enum)
  unfolding v_qp_to_rtr
  rtr_lem s rest qp port srv = modified_lem s rest qp _ _

  rts_lem : (s : Session) (rest : List Resource) (qp : ℕ) → Requested s rest (v_qp_to_rts os qp)
  unfolding v_qp_to_rts
  rts_lem s rest qp = modified_lem s rest qp _ _

  checked_lem :
      (s : Session) (rest : List Resource) (e : Error) (code : ℕ)
      → Triple
          (At s (Resource.socket fd ∷ rest))
          (closing os fd (lift (zero_or e code)))
          (λ _. At s (Resource.socket fd ∷ rest))
          (Failed s.block rest)
  checked_lem s rest e code = Neutral-closing os fd s rest (Neutral-zero_or e code)

  pub bring_up_lem :
      (s : Session) (rest : List Resource) (c qp port gid_index : ℕ)
      → Triple
          (At s (Resource.socket fd ∷ rest))
          (bring_up os fd c qp port gid_index)
          (λ _. At s (Resource.socket fd ∷ rest))
          (Failed s.block rest)
  unfolding bring_up
  bring_up_lem s rest c qp port gid_index = bind (init_lem s rest qp port) λ code.
      bind (checked_lem s rest qp_to_init_failed code) λ _.
        bind (Neutral-closing os fd s rest (Neutral-v_query_gid os c port gid_index)) λ gid.
          bind (Neutral-closing os fd s rest (Neutral-v_query_mtu_enum os c port)) λ mtu_enum.
            bind
              (Neutral-closing os fd s rest (
                Neutral-report qp_info_not_sent (
                  Neutral-send_qpinfo_client os fd (record {
                    qpn = os.qp_num qp;
                    lid = 0;
                    gid = gid;
                    gid_idx = gid_index;
                    mtu_enum = pos mtu_enum;
                  }))))
              λ _. bind (Neutral-closing os fd s rest (Neutral-recv_qpinfo_server os fd)) λ srv.
                bind (rtr_lem s rest qp port srv) λ code.
                  bind (checked_lem s rest qp_to_rtr_failed code)
                    λ _. bind (rts_lem s rest qp) λ code. checked_lem s rest qp_to_rts_failed code
