-- ===== src/Tests/Clients.antt =====
-- The three clients and the helpers of the shim on concrete systems.
use storefs.Prelude.{◌≡◌, refl, none, List, [], ◌∷◌}
use storefs.Prelude.Int.{pos}
use storefs.Prelude.Text.{Bytes, codes}
use storefs.Os.{query_mtu_failed, pure, ◌>>=◌}
use storefs.Os.Live.{Holds}
use storefs.Verbs.{v_open_device, v_qp_to_init, v_qp_to_rtr, v_qp_to_rts, v_query_mtu_enum}
use storefs.Shim.{
  rdma_open_device, rdma_qp_to_init, rdma_qp_to_rtr, rdma_qp_to_rts, rdma_query_port_mtu_enum,
}
use storefs.Shim.Agree.{checked, rdma_open_device-v_open_device}
use storefs.Multipart.Main.{main}
use storefs.Multipart.Main.Leaks.{main-Holds}
use storefs.Transfer.Put.{put_main}
use storefs.Transfer.Put.Leaks.{put_main-Holds}
use storefs.Transfer.Get.{get_main}
use storefs.Transfer.Get.Leaks.{get_main-Holds}
use storefs.Tests.Machines.{working}
use storefs.Tests.Leaks.{nothing_held, working_devices}
use storefs.Tests.Requests.{answering}

abbrev words : List Bytes
words =
    codes "-bucket" ∷ codes "b" ∷ codes "-object" ∷ codes "o" ∷ codes "-file" ∷ codes "f.bin" ∷ []

main-Holds_example : Holds [] (main answering words []).1
main-Holds_example = main-Holds answering words [] [] working_devices (λ t h. refl) nothing_held

put_main-Holds_example : Holds [] (put_main answering words []).1
put_main-Holds_example =
    put_main-Holds answering words [] [] working_devices (λ t h. refl) nothing_held

get_main-Holds_example : Holds [] (get_main answering words []).1
get_main-Holds_example =
    get_main-Holds answering words [] [] working_devices (λ t h. refl) nothing_held

rdma_open_device-v_open_device_example :
    (rdma_open_device working none [] ≡ v_open_device working none [])
    × (rdma_qp_to_init working 7 1 [] ≡ v_qp_to_init working 7 1 [])
    × ((do code ← rdma_query_port_mtu_enum working 0 1; checked query_mtu_failed code pure) []
        ≡ v_query_mtu_enum working 0 1 [])
    × (rdma_qp_to_rtr working 7 1201 0 [] 1 3 (pos 3) []
        ≡ v_qp_to_rtr working 7 1201 0 [] 1 3 (pos 3) [])
    × (rdma_qp_to_rts working 7 [] ≡ v_qp_to_rts working 7 [])
rdma_open_device-v_open_device_example =
    rdma_open_device-v_open_device working none 0 7 1201 0 [] 1 3 (pos 3) []
