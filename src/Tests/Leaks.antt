-- ===== src/Tests/Leaks.antt =====
-- What is held at the end of concrete runs.
use storefs.Prelude.{◌≡◌, refl, none, [], ◌∷◌}
use storefs.Prelude.Text.{Bytes, codes}
use storefs.Os.{Resource, init, rtr, rts}
use storefs.Os.States.{states}
use storefs.Session.States.{Stopped, bring_up-Reached}
use storefs.Os.Live.{live, sound, Holds, Outcome}
use storefs.Verbs.Leaks.{HasDevice}
use storefs.Ws.{ws_dial}
use storefs.Ws.Dial.{ws_dial-Holds}
use storefs.Session.{Work, blank, bring_up, rdma_session_destroy, rdma_recv_setup, rdma_send_setup}
use storefs.Session.Leaks.{rdma_recv_setup-Holds, rdma_send_setup-Holds}
use storefs.Tests.Machines.{dropping, working}

abbrev url : Bytes
url = codes "ws://store:9000/rdma-ctrl"

pub nothing_held : Holds [] []
unfolding live sound
nothing_held = (refl, refl)

pub working_devices : HasDevice working
working_devices t e = cc

ws_dial-Holds_example :
    Outcome (λ fd. Holds (Resource.socket fd ∷ [])) (Holds []) (ws_dial dropping url [])
ws_dial-Holds_example = ws_dial-Holds dropping url [] [] nothing_held

abbrev id : Bytes
id = codes "req-1"

rdma_recv_setup-Holds_example :
    Outcome
      (λ s t. Holds [] (rdma_session_destroy s t).1)
      (Holds [])
      (rdma_recv_setup working url none 1 3 id 4096 65536 [])
rdma_recv_setup-Holds_example =
    rdma_recv_setup-Holds working url none 1 3 id 4096 65536 [] [] working_devices nothing_held

rdma_send_setup-Holds_example :
    Outcome
      (λ s t. Holds [] (rdma_session_destroy s t).1)
      (Holds [])
      (rdma_send_setup working url none 1 3 id 4096 65536 [])
rdma_send_setup-Holds_example =
    rdma_send_setup-Holds working url none 1 3 id 4096 65536 [] [] working_devices nothing_held

abbrev fresh : Work
fresh = record { session = blank 9; trace = [] }

untouched : states fresh.trace ≡ []
unfolding states
untouched = refl

bring_up-Reached_example :
    Outcome
      (λ _ v. states v.trace ≡ rts ∷ rtr ∷ init ∷ [])
      (Stopped [])
      (bring_up working 1 0 7 1 3 fresh)
bring_up-Reached_example = bring_up-Reached working 1 7 [] 0 1 3 fresh untouched
