-- ===== src/Verbs.antt =====
-- The verbs helpers of examples/rdma/c/rdmalib.c, over libibverbs as a parameter.
pub mod Leaks
use storefs.Prelude.{
  ℕ, zero, suc, ◌+◌, Bool, true, false, ◌||◌, Option, none, some, List, [], ◌∷◌, ◌==◌,
  if◌then◌else◌,
}
use storefs.Prelude.Int.{ℤ, pos}
use storefs.Prelude.Text.{Bytes, same_text}
use storefs.Os.{
  devices, ctx, Access, local_write, remote_read, remote_write, QpField, reset, init, rtr, rts,
  QpAttr, acquired, released, modified, failed, Trace, Os, Error, open_device_failed,
  query_gid_failed, query_mtu_failed, Result, ok, err, Cmd, pure, fail, emit, ◌>>=◌, ◌>>◌, taken,
}

-- `memset(&attr, 0, sizeof(attr))`, with the state of the request that is being filled in
abbrev pub cleared : QpAttr
cleared = record {
  qp_state = reset;
  pkey_index = 0;
  port_num = 0;
  qp_access_flags = [];
  path_mtu = pos 0;
  dest_qp_num = 0;
  rq_psn = 0;
  max_dest_rd_atomic = 0;
  min_rnr_timer = 0;
  is_global = 0;
  dlid = 0;
  sl = 0;
  ah_port_num = 0;
  sgid_index = 0;
  hop_limit = 0;
  traffic_class = 0;
  flow_label = 0;
  dgid = [];
  timeout = 0;
  retry_cnt = 0;
  rnr_retry = 0;
  sq_psn = 0;
  max_rd_atomic = 0;
}

unfoldable pub init_attr : ℕ → QpAttr
init_attr port = record cleared {
  qp_state = init;
  port_num = port;
  qp_access_flags = local_write ∷ remote_read ∷ remote_write ∷ [];
}

unfoldable pub rtr_attr : (remote_qpn dlid : ℕ) → Bytes → (port gid_index : ℕ) → ℤ → QpAttr
rtr_attr remote_qpn dlid dgid port gid_index mtu_enum = record cleared {
  qp_state = rtr;
  path_mtu = mtu_enum;
  dest_qp_num = remote_qpn;
  max_dest_rd_atomic = 1;
  min_rnr_timer = 12;
  is_global = 1;
  dlid = dlid;
  ah_port_num = port;
  sgid_index = gid_index;
  hop_limit = 64;
  dgid = dgid;
}

unfoldable pub rts_attr : QpAttr
rts_attr = record cleared {
  qp_state = rts;
  timeout = 14;
  retry_cnt = 7;
  rnr_retry = 7;
  max_rd_atomic = 1;
}

-- `!dev_name || dev_name[0] == 0 || strcmp(name, dev_name) == 0`
unfoldable pub wanted : Option Bytes → Bytes → Bool
wanted none name = true
wanted (some []) name = true
wanted (some (c ∷ dev_name)) name = same_text name (c ∷ dev_name)

-- The index of the first device that is wanted.
unfoldable pub first_wanted : Option Bytes → ℕ → List Bytes → Option ℕ
unfolding wanted
first_wanted dev_name i [] = none
first_wanted dev_name i (name ∷ names) =
    let rest = first_wanted dev_name (i + 1) names in if wanted dev_name name then some i else rest

module _ (os : Os) where
  -- `ibv_open_device` of the device that was found, if any; `none` is NULL.
  unfoldable pub open_found : Option ℕ → Cmd (Option ℕ)
  open_found none t = (ok none, t)
  open_found (some i) t = elim (os.open_device t i) [
    | none ↦ (ok none, failed ∷ t)
    | some c ↦ (ok (some c), acquired (ctx c) ∷ t)
  ]

  -- A list with no device in it is not given back: the early return stands before
  -- `ibv_free_device_list`.
  unfoldable pub v_open_device : Option Bytes → Cmd (Option ℕ)
  unfolding open_found first_wanted
  v_open_device dev_name t = elim (os.get_device_list t) [
    | none ↦ (ok none, failed ∷ t)
    | some [] ↦ (ok none, acquired (devices 0) ∷ t)
    | some (name ∷ names) ↦
        (do
          c ← open_found (first_wanted dev_name 0 (name ∷ names))
          emit (released (devices 0))
          pure c)
          (acquired (devices 0) ∷ t)
  ]

  -- `ibv_modify_qp` returns 0 or an error number.
  unfoldable pub modify_qp : ℕ → QpAttr → List QpField → Cmd ℕ
  modify_qp qp attr mask t = (ok (os.modify_qp t qp attr mask), modified qp attr mask ∷ t)

  unfoldable pub v_qp_to_init : ℕ → ℕ → Cmd ℕ
  unfolding modify_qp init_attr
  v_qp_to_init qp port =
      modify_qp qp (init_attr port)
        (QpField.state ∷ QpField.pkey_index ∷ QpField.port ∷ QpField.access_flags ∷ [])

  unfoldable pub v_qp_to_rtr : (qp remote_qpn dlid : ℕ) → Bytes → (port gid_index : ℕ) → ℤ → Cmd ℕ
  unfolding modify_qp rtr_attr
  v_qp_to_rtr qp remote_qpn dlid dgid port gid_index mtu_enum =
      modify_qp qp (rtr_attr remote_qpn dlid dgid port gid_index mtu_enum) (
        QpField.state ∷ QpField.av ∷ QpField.path_mtu ∷ QpField.dest_qpn ∷ QpField.rq_psn
        ∷ QpField.max_dest_rd_atomic ∷ QpField.min_rnr_timer ∷ [])

  unfoldable pub v_qp_to_rts : ℕ → Cmd ℕ
  unfolding modify_qp rts_attr
  v_qp_to_rts qp = modify_qp qp rts_attr (
      QpField.state ∷ QpField.timeout ∷ QpField.retry_cnt ∷ QpField.rnr_retry ∷ QpField.sq_psn
      ∷ QpField.max_qp_rd_atomic ∷ [])

  -- The five sizes stand for themselves, any other value for 1024 bytes.
  unfoldable pub mtu_or_default : ℕ → ℕ
  mtu_or_default active =
      if active == os.mtu.mtu_256
      then os.mtu.mtu_256
      else if active == os.mtu.mtu_512
      then os.mtu.mtu_512
      else if active == os.mtu.mtu_1024
      then os.mtu.mtu_1024
      else if active == os.mtu.mtu_2048
      then os.mtu.mtu_2048
      else if active == os.mtu.mtu_4096
      then os.mtu.mtu_4096
      else os.mtu.mtu_1024

  unfoldable pub v_query_mtu_enum : ℕ → ℕ → Cmd ℕ
  v_query_mtu_enum c port t = elim (os.query_port t c port) [
    | none ↦ (err query_mtu_failed, failed ∷ t)
    | some active ↦ (ok (mtu_or_default active), t)
  ]

  unfoldable pub v_query_gid : ℕ → ℕ → ℕ → Cmd Bytes
  v_query_gid c port gid_index t = elim (os.query_gid t c port gid_index) [
    | none ↦ (err query_gid_failed, failed ∷ t)
    | some gid ↦ (ok gid, t)
  ]
