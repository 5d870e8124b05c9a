-- ===== src/Shim.antt =====
-- `verbs_shim.c`, the functions over libibverbs that the Java client (examples/rdma/java/native) and
-- the Python client (examples/rdma/python/py_rdma, the same file) call. `none` is NULL.
pub mod Agree
use storefs.Prelude.{
  ℕ, zero, suc, ◌+◌, Bool, true, false, ◌||◌, Option, none, some, List, [], ◌∷◌, ◌==◌,
  if◌then◌else◌,
}
use storefs.Prelude.Int.{ℤ, pos, negsuc}
use storefs.Prelude.Text.{Bytes, same_text}
use storefs.Os.{
  Resource, Access, local_write, remote_read, remote_write, QpField, reset, init, rtr, rts, QpAttr,
  QpInitAttr, Event, acquired, released, modified, registered, failed, Trace, Os, Result, ok, err,
  Cmd, pure, emit, ◌>>=◌, ◌>>◌, ask,
}
use storefs.Verbs.{cleared}

-- `!dev_name || dev_name[0] == 0 || strcmp(name, dev_name) == 0`
is_wanted : Option Bytes → Bytes → Bool
is_wanted none name = true
is_wanted (some dev_name) name = same_text dev_name [] || same_text name dev_name

-- What a call that may answer NULL gives.
abbrev given : (ℕ → Resource) → Option ℕ → Cmd (Option ℕ)
given r o t = elim o [ none ↦ (ok none, failed ∷ t) | some x ↦ (ok (some x), acquired (r x) ∷ t) ]

-- `if (x) ibv_...(x)`
abbrev freed : (ℕ → Resource) → Option ℕ → Cmd (Unit {0})
freed r none = pure tt
freed r (some x) = emit (released (r x))

-- The five sizes of a message.
abbrev mtus : Os → List ℕ
mtus os = os.mtu.mtu_256 ∷ os.mtu.mtu_512 ∷ os.mtu.mtu_1024 ∷ os.mtu.mtu_2048 ∷ os.mtu.mtu_4096 ∷ []

-- `switch`: the first case that fits, or the default.
switch : (x : ℕ) → List ℕ → (default_case : ℕ) → ℕ
switch x [] default_case = default_case
switch x (c ∷ cs) default_case = if x == c then c else switch x cs default_case

module _ (os : Os) where
  -- The loop over the devices, which stops at the first that is wanted.
  open_loop : Option Bytes → ℕ → List Bytes → Cmd (Option ℕ)
  unfolding is_wanted
  open_loop dev_name i [] t = (ok none, t)
  open_loop dev_name i (name ∷ names) t =
      let rest = open_loop dev_name (i + 1) names t in
      if is_wanted dev_name name then given Resource.ctx (os.open_device t i) t else rest

  pub rdma_open_device : Option Bytes → Cmd (Option ℕ)
  unfolding open_loop
  rdma_open_device dev_name t = elim (os.get_device_list t) [
    | none ↦ (ok none, failed ∷ t)
    | some [] ↦ (ok none, acquired (Resource.devices 0) ∷ t)
    | some (name ∷ names) ↦
        (do c ← open_loop dev_name 0 (name ∷ names); emit (released (Resource.devices 0)); pure c)
          (acquired (Resource.devices 0) ∷ t)
  ]

  pub rdma_close_device : Option ℕ → Cmd (Unit {0})
  rdma_close_device c = freed Resource.ctx c

  pub rdma_alloc_pd : ℕ → Cmd (Option ℕ)
  rdma_alloc_pd c t = given Resource.pd (os.alloc_pd t c) t

  pub rdma_dealloc_pd : Option ℕ → Cmd (Unit {0})
  rdma_dealloc_pd p = freed Resource.pd p

  pub rdma_create_cq : (c cqe : ℕ) → Cmd (Option ℕ)
  rdma_create_cq c cqe t = given Resource.cq (os.create_cq t c cqe) t

  pub rdma_destroy_cq : Option ℕ → Cmd (Unit {0})
  rdma_destroy_cq q = freed Resource.cq q

  pub rdma_create_rc_qp : (p q max_send max_recv max_inline : ℕ) → Cmd (Option ℕ)
  rdma_create_rc_qp p q max_send max_recv max_inline t =
      given Resource.qp
        (os.create_qp t p (record {
          cq = q;
          max_send_wr = max_send;
          max_recv_wr = max_recv;
          max_send_sge = 1;
          max_recv_sge = 1;
          max_inline_data = max_inline;
          sq_sig_all = 0;
        }))
        t

  pub rdma_destroy_qp : Option ℕ → Cmd (Unit {0})
  rdma_destroy_qp q = freed Resource.qp q

  -- `ibv_modify_qp`
  abbrev modify : ℕ → QpAttr → List QpField → Cmd ℕ
  modify qp attr mask t = (ok (os.modify_qp t qp attr mask), modified qp attr mask ∷ t)

  pub rdma_qp_to_init : (qp port : ℕ) → Cmd ℕ
  rdma_qp_to_init qp port =
      modify qp
        (record cleared {
          qp_state = init;
          pkey_index = 0;
          port_num = port;
          qp_access_flags = local_write ∷ remote_read ∷ remote_write ∷ [];
        })
        (QpField.state ∷ QpField.pkey_index ∷ QpField.port ∷ QpField.access_flags ∷ [])

  -- -1 where the port cannot be asked
  pub rdma_query_port_mtu_enum : (c port : ℕ) → Cmd ℤ
  unfolding switch
  rdma_query_port_mtu_enum c port t = elim (os.query_port t c port) [
    | none ↦ (ok (negsuc 0), failed ∷ t)
    | some active ↦ (ok (pos (switch active (mtus os) os.mtu.mtu_1024)), t)
  ]

  -- The 16 bytes, or -1.
  pub rdma_query_gid : (c port gid_index : ℕ) → Cmd (Option Bytes)
  rdma_query_gid c port gid_index t = elim (os.query_gid t c port gid_index) [
    | none ↦ (ok none, failed ∷ t)
    | some gid ↦ (ok (some gid), t)
  ]

  pub rdma_qp_to_rtr : (qp remote_qpn dlid : ℕ) → Bytes → (port gid_index : ℕ) → ℤ → Cmd ℕ
  rdma_qp_to_rtr qp remote_qpn dlid dgid port gid_index mtu_enum =
      modify qp
        (record cleared {
          qp_state = rtr;
          path_mtu = mtu_enum;
          dest_qp_num = remote_qpn;
          rq_psn = 0;
          max_dest_rd_atomic = 1;
          min_rnr_timer = 12;
          is_global = 1;
          dlid = dlid;
          sl = 0;
          ah_port_num = port;
          sgid_index = gid_index;
          hop_limit = 64;
          traffic_class = 0;
          flow_label = 0;
          dgid = dgid;
        })
        (QpField.state ∷ QpField.av ∷ QpField.path_mtu ∷ QpField.dest_qpn ∷ QpField.rq_psn
          ∷ QpField.max_dest_rd_atomic ∷ QpField.min_rnr_timer ∷ [])

  pub rdma_qp_to_rts : ℕ → Cmd ℕ
  rdma_qp_to_rts qp =
      modify qp
        (record cleared {
          qp_state = rts;
          timeout = 14;
          retry_cnt = 7;
          rnr_retry = 7;
          sq_psn = 0;
          max_rd_atomic = 1;
        })
        (QpField.state ∷ QpField.timeout ∷ QpField.retry_cnt ∷ QpField.rnr_retry ∷ QpField.sq_psn
          ∷ QpField.max_qp_rd_atomic ∷ [])

  -- `ibv_reg_mr`
  abbrev reg_mr : (p addr len : ℕ) → List Access → Cmd (Option ℕ)
  reg_mr p addr len flags t = elim (os.reg_mr t p addr len flags) [
    | none ↦ (ok none, failed ∷ t)
    | some m ↦ (ok (some m), registered m flags ∷ acquired (Resource.mr m) ∷ t)
  ]

  pub rdma_reg_mr_dst : (p addr len : ℕ) → Cmd (Option ℕ)
  rdma_reg_mr_dst p addr len = reg_mr p addr len (local_write ∷ remote_read ∷ remote_write ∷ [])

  pub rdma_reg_mr_src : (p addr len : ℕ) → Cmd (Option ℕ)
  rdma_reg_mr_src p addr len = reg_mr p addr len (local_write ∷ remote_read ∷ [])

  pub rdma_dereg_mr : Option ℕ → Cmd (Unit {0})
  rdma_dereg_mr m = freed Resource.mr m

  pub rdma_qp_num : ℕ → ℕ
  rdma_qp_num qp = os.qp_num qp

  pub rdma_mr_rkey : ℕ → ℕ
  rdma_mr_rkey m = os.rkey m
