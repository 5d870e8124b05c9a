-- ===== src/Shim/Agree.antt =====
-- How `verbs_shim.c` and the verbs helpers of examples/rdma/c/rdmalib.c relate.
use storefs.Prelude.{ℕ, ◌+◌, ◌≡◌, refl, Option, none, some, List, [], ◌∷◌, arith}
use storefs.Prelude.Int.{ℤ, pos, negsuc}
use storefs.Prelude.Text.{Bytes, same_text}
use storefs.Os.{Trace, Os, Error, query_mtu_failed, Cmd, ◌>>=◌, pure, fail}
use storefs.Verbs.{
  wanted, first_wanted, open_found, v_open_device, v_qp_to_init, v_qp_to_rtr, v_qp_to_rts,
  v_query_mtu_enum, mtu_or_default, modify_qp, init_attr, rtr_attr, rts_attr,
}
use storefs.Shim.{
  is_wanted, open_loop, rdma_open_device, rdma_qp_to_init, rdma_qp_to_rtr, rdma_qp_to_rts,
  rdma_query_port_mtu_enum, switch,
}

wanted_lem :
    (dev_name : Option Bytes) (name : Bytes) → is_wanted dev_name name ≡ wanted dev_name name
unfolding is_wanted wanted same_text
wanted_lem none name = refl
wanted_lem (some []) name = refl
wanted_lem (some (c ∷ s)) name = refl

-- A code that is not negative, or a failure.
abbrev pub checked : {A : Type 0} → Error → ℤ → (ℕ → Cmd A) → Cmd A
checked e (pos n) k = k n
checked e (negsuc n) k = fail e

module _ (os : Os) where
  loop_lem :
      (dev_name : Option Bytes) (i : ℕ) (names : List Bytes) (t : Trace)
      → open_loop os dev_name i names t ≡ open_found os (first_wanted dev_name i names) t
  unfolding open_loop open_found first_wanted
  loop_lem dev_name i [] t = refl
  loop_lem dev_name i (name ∷ names) t =
      let same = wanted_lem dev_name name in
      let rest = loop_lem dev_name (i + 1) names t in ground arith

  open_lem :
      (dev_name : Option Bytes) (t : Trace) (o : Option (List Bytes))
      → os.get_device_list t ≡ o
      → rdma_open_device os dev_name t ≡ v_open_device os dev_name t
  unfolding rdma_open_device v_open_device
  open_lem dev_name t none e = rw (e, rdma_open_device, v_open_device) refl
  open_lem dev_name t (some []) e = rw (e, rdma_open_device, v_open_device) refl
  open_lem dev_name t (some (name ∷ names)) e =
      rw (e, rdma_open_device, v_open_device, ◌>>=◌, loop_lem dev_name 0 (name ∷ names)) refl

  mtu_lem :
      (active : ℕ)
      → switch active
          (os.mtu.mtu_256 ∷ os.mtu.mtu_512 ∷ os.mtu.mtu_1024 ∷ os.mtu.mtu_2048 ∷ os.mtu.mtu_4096
            ∷ [])
          os.mtu.mtu_1024
        ≡ mtu_or_default os active
  unfolding switch mtu_or_default
  mtu_lem active = ground arith

  query_lem :
      (c port : ℕ) (t : Trace) (o : Option ℕ)
      → os.query_port t c port ≡ o
      → (do code ← rdma_query_port_mtu_enum os c port; checked query_mtu_failed code pure) t
        ≡ v_query_mtu_enum os c port t
  unfolding rdma_query_port_mtu_enum v_query_mtu_enum
  query_lem c port t none e = rw (e, rdma_query_port_mtu_enum, v_query_mtu_enum) refl
  query_lem c port t (some active) e =
      rw (e, rdma_query_port_mtu_enum, v_query_mtu_enum, mtu_lem active) refl

  -- On the same system, trace and arguments the shim's helpers return what those of the C client
  -- return and leave the same trace: the opening of a device, the three changes of a queue pair's
  -- state, and the size of a message, whose failure the shim reports as a negative number.
  pub rdma_open_device-v_open_device :
      (dev_name : Option Bytes) (c qp remote_qpn dlid : ℕ) (dgid : Bytes) (port gid_index : ℕ)
      (mtu_enum : ℤ) (t : Trace)
      → (rdma_open_device os dev_name t ≡ v_open_device os dev_name t)
        × (rdma_qp_to_init os qp port t ≡ v_qp_to_init os qp port t)
        × ((do code ← rdma_query_port_mtu_enum os c port; checked query_mtu_failed code pure) t
            ≡ v_query_mtu_enum os c port t)
        × (rdma_qp_to_rtr os qp remote_qpn dlid dgid port gid_index mtu_enum t
            ≡ v_qp_to_rtr os qp remote_qpn dlid dgid port gid_index mtu_enum t)
        × (rdma_qp_to_rts os qp t ≡ v_qp_to_rts os qp t)
  unfolding v_qp_to_init v_qp_to_rtr v_qp_to_rts modify_qp init_attr rtr_attr rts_attr
      rdma_qp_to_init rdma_qp_to_rtr rdma_qp_to_rts
  rdma_open_device-v_open_device dev_name c qp remote_qpn dlid dgid port gid_index mtu_enum t =
      (open_lem dev_name t _ refl, refl, query_lem c port t _ refl, refl, refl)
