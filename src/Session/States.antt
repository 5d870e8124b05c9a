-- ===== src/Session/States.antt =====
-- The states that the bring-up of a queue pair takes it through.
use storefs.Prelude.{ℕ, ◌≡◌, ◌==◌, List, ◌∷◌, ap, arith}
use storefs.Prelude.Int.{pos}
use storefs.Os.{
  QpState, init, rtr, rts, Trace, Os, Error, qp_to_init_failed, qp_to_rtr_failed, qp_to_rts_failed,
  qp_info_not_sent, Result, Cmd,
}
use storefs.Os.Live.{Outcome, good, bad, Triple, bind}
use storefs.Os.Rules.{when_lem, pure_lem, fail_lem, or_else_lem}
use storefs.Os.States.{states, States, Still, still_lem, report_lem}
use storefs.QpInfo.{QpInfo}
use storefs.Verbs.{
  init_attr, rtr_attr, rts_attr, modify_qp, v_qp_to_init, v_qp_to_rtr, v_qp_to_rts, v_query_gid,
  v_query_mtu_enum,
}
use storefs.Ws.States.{ws_close_states}
use storefs.Protocol.States.{send_qpinfo_client_lem, recv_qpinfo_server_lem}
use storefs.Session.{Session, Work, lift, lifted, closing, zero_or, bring_up}

-- How far a queue pair got from where it stood with `ss` behind it, each state after the one before.
pub data Reached (ss : List QpState) : List QpState → Type 0 where
  not_started : Reached ss ss
  in_init : Reached ss (init ∷ ss)
  in_rtr : Reached ss (rtr ∷ init ∷ ss)
  in_rts : Reached ss (rts ∷ rtr ∷ init ∷ ss)

-- The same of the trace of the handshake's work.
abbrev At : List QpState → Work → Type 0
At ss w = States ss w.trace

-- Where a handshake that fails may have left the queue pair.
abbrev pub Stopped : List QpState → Work → Type 0
Stopped ss w = Reached ss (states w.trace)

lifted_lem :
    {A : Type 0} {ss : List QpState} {s : Session} {p : Result A × Trace}
    → Outcome (λ _. States ss) (States ss) p
    → Outcome (λ _. At ss) (At ss) (lifted s p)
lifted_lem (good h) = good h
lifted_lem (bad h) = bad h

lift_lem :
    {A : Type 0} {ss : List QpState} {m : Cmd A}
    → Still ss m
    → Triple (At ss) (lift m) (λ _. At ss) (At ss)
lift_lem {m} hm = record { run = λ w h. lifted_lem (hm.run w.trace h) }

stopped :
    {A : Type 0} {rr ss : List QpState} {p : Result A × Work}
    → Reached rr ss
    → Outcome (λ _. At ss) (At ss) p
    → Outcome (λ _. At ss) (Stopped rr) p
stopped far (good h) = good h
stopped far (bad h) = bad (rw h far)

module _ (os : Os) (fd qp : ℕ) (rr : List QpState) where
  -- A part that asks for no change, and the end of the websocket behind its failure.
  Still-closing :
      {A : Type 0} {ss : List QpState} {m : Cmd A}
      → Reached rr ss
      → Still ss m
      → Triple (At ss) (closing os fd (lift m)) (λ _. At ss) (Stopped rr)
  Still-closing {ss} far hm = record {
    run = λ w h.
        stopped far ((or_else_lem (lift_lem hm) (lift_lem (ws_close_states os ss fd))).run w h);
  }

  checked_lem :
      {ss : List QpState} (e : Error) (code : ℕ)
      → Reached rr ss
      → Triple (At ss) (closing os fd (lift (zero_or e code))) (λ _. At ss) (Stopped rr)
  checked_lem e code far = Still-closing far (when_lem (code == 0) (pure_lem tt) (fail_lem e))

  init_lem :
      (port : ℕ)
      → Triple (At rr) (lift (v_qp_to_init os qp port)) (λ _. At (init ∷ rr)) (Stopped rr)
  unfolding v_qp_to_init modify_qp init_attr states
  init_lem port = record { run = λ w h. good (ap (λ ss. init ∷ ss) h) }

  rtr_lem :
      (srv : QpInfo) (port : ℕ)
      → Triple
          (At (init ∷ rr))
          (lift (v_qp_to_rtr os qp srv.qpn srv.lid srv.gid port srv.gid_idx srv.mtu_enum))
          (λ _. At (rtr ∷ init ∷ rr))
          (Stopped rr)
  unfolding v_qp_to_rtr modify_qp rtr_attr states
  rtr_lem srv port = record { run = λ w h. good (ap (λ ss. rtr ∷ ss) h) }

  rts_lem :
      Triple
        (At (rtr ∷ init ∷ rr))
        (lift (v_qp_to_rts os qp))
        (λ _. At (rts ∷ rtr ∷ init ∷ rr))
        (Stopped rr)
  unfolding v_qp_to_rts modify_qp rts_attr states
  rts_lem = record { run = λ w h. good (ap (λ ss. rts ∷ ss) h) }

  query_gid_lem :
      (ss : List QpState) (c port gid_index : ℕ) → Still ss (v_query_gid os c port gid_index)
  unfolding v_query_gid states
  query_gid_lem ss c port gid_index =
      still_lem (v_query_gid os c port gid_index) λ t h. ground arith

  query_mtu_lem : (ss : List QpState) (c port : ℕ) → Still ss (v_query_mtu_enum os c port)
  unfolding v_query_mtu_enum states
  query_mtu_lem ss c port = still_lem (v_query_mtu_enum os c port) λ t h. ground arith

  brought_up :
      (c port gid_index : ℕ)
      → Triple
          (At rr)
          (bring_up os fd c qp port gid_index)
          (λ _. At (rts ∷ rtr ∷ init ∷ rr))
          (Stopped rr)
  unfolding bring_up
  brought_up c port gid_index = bind (init_lem port) λ code.
      bind (checked_lem qp_to_init_failed code in_init) λ _.
        bind (Still-closing in_init (query_gid_lem (init ∷ rr) c port gid_index)) λ gid.
          bind (Still-closing in_init (query_mtu_lem (init ∷ rr) c port)) λ mtu_enum.
            bind
              (Still-closing in_init (
                report_lem qp_info_not_sent (
                  send_qpinfo_client_lem os (init ∷ rr) fd (record {
                    qpn = os.qp_num qp;
                    lid = 0;
                    gid = gid;
                    gid_idx = gid_index;
                    mtu_enum = pos mtu_enum;
                  }))))
              λ _. bind (Still-closing in_init (recv_qpinfo_server_lem os (init ∷ rr) fd)) λ srv.
                bind (rtr_lem srv port) λ code.
                  bind (checked_lem qp_to_rtr_failed code in_rtr)
                    λ _. bind rts_lem λ code. checked_lem qp_to_rts_failed code in_rts

  -- The bring-up of a queue pair asks for the states INIT, RTR and RTS in this order: all three where it
  -- succeeds, and where it fails, the first of them as far as it came; it asks for no state twice and for
  -- no other.
  pub bring_up-Reached :
      (c port gid_index : ℕ) (w : Work)
      → states w.trace ≡ rr
      → Outcome
          (λ _ v. states v.trace ≡ rts ∷ rtr ∷ init ∷ rr)
          (Stopped rr)
          (bring_up os fd c qp port gid_index w)
  bring_up-Reached c port gid_index w h = (brought_up c port gid_index).run w h
