-- ===== src/Session/Leaks.antt =====
-- What `rdma_recv_setup` and `rdma_send_setup` of examples/rdma/c/rdmalib.c hold when they end.
use storefs.Prelude.{ℕ, ◌≡◌, refl, ap, ◌∙◌, Option, none, List, ◌∷◌, ◌++◌}
use storefs.Prelude.Text.{Bytes}
use storefs.Os.{Resource, Access, Trace, Os, out_of_memory, Result, pure, ◌>>◌, continue}
use storefs.Os.Live.{Holds, Outcome, good, bad, Triple, bind, taken_lem}
use storefs.Verbs.Leaks.{HasDevice}
use storefs.Ws.{ws_dial}
use storefs.Ws.Dial.{ws_dial_lem}
use storefs.Session.{
  Session, Work, blank, lifted, lift, rdma_session_destroy, bring_up, rdma_handshake,
  after_handshake, setup, rdma_recv_setup, rdma_send_setup,
}
use storefs.Session.Share.{Owns, cleanup_lem, destroyed, share_buffer_lem}
use storefs.Session.Held.{objects, At, Failed}
use storefs.Session.BringUp.{register_lem, bring_up_lem}
use storefs.Session.Objects.{filled, open_objects_lem}

module _ (os : Os) where
  -- What a handshake that is done leaves: the open socket, and a session without a region.
  abbrev Ready : ℕ → List Resource → ℕ → Work → Type 0
  Ready b rest fd w =
      (w.session.block ≡ b)
      × (w.session.mr ≡ none)
      × Holds (objects w.session ++ (Resource.socket fd ∷ rest)) w.trace

  dialled :
      (b : ℕ) (rest : List Resource) (w : Session) (p : Result ℕ × Trace)
      → w ≡ blank b
      → Outcome (λ fd. Holds (Resource.socket fd ∷ rest)) (Holds rest) p
      → Outcome (λ fd. At (blank b) (Resource.socket fd ∷ rest)) (Failed b rest) (lifted w p)
  dialled b rest w p e (good h) = good (e, h)
  dialled b rest w p e (bad {s = t} h) = bad (ap {B = ℕ} (λ s. s.block) e, rw e h)

  dial_lem :
      (b : ℕ) (rest : List Resource) (url : Bytes)
      → Triple
          (At (blank b) rest)
          (lift (ws_dial os url))
          (λ fd. At (blank b) (Resource.socket fd ∷ rest))
          (Failed b rest)
  dial_lem b rest url = record {
    run = λ w (e, h).
        dialled b rest w.session (ws_dial os url w.trace) e
          ((ws_dial_lem os url rest).run w.trace h);
  }

  readied :
      (fd b : ℕ) (rest : List Resource) (s : Session) (p : Result (Unit {0}) × Work)
      → s.block ≡ b
      → s.mr ≡ none
      → Outcome (λ _. At s (Resource.socket fd ∷ rest)) (Failed s.block rest) p
      → Outcome (Ready b rest) (Failed b rest) (continue p (λ _. pure fd))
  readied fd b rest s p eb em (good (e, h)) =
      good (ap {B = ℕ} (λ s. s.block) e ∙ eb, ap {B = Option ℕ} (λ s. s.mr) e ∙ em, rw e h)
  readied fd b rest s p eb em (bad (e, h)) = bad (e ∙ eb, h)

  opened_lem :
      (fd b : ℕ) (rest : List Resource) (c p q qp port gid_index : ℕ)
      → Triple
          (At (filled b c p q qp) (Resource.socket fd ∷ rest))
          (do bring_up os fd c qp port gid_index; pure fd)
          (Ready b rest)
          (Failed b rest)
  opened_lem fd b rest c p q qp port gid_index = record {
    run = λ w h.
        readied fd b rest (filled b c p q qp) (bring_up os fd c qp port gid_index w) refl refl
          ((bring_up_lem os fd (filled b c p q qp) rest c qp port gid_index).run w h);
  }

  handshake_lem :
      (b : ℕ) (rest : List Resource) (url : Bytes) (dev_name : Option Bytes) (port gid_index : ℕ)
      (id : Bytes)
      → HasDevice os
      → Triple
          (At (blank b) rest)
          (rdma_handshake os url dev_name port gid_index id)
          (Ready b rest)
          (Failed b rest)
  unfolding rdma_handshake
  handshake_lem b rest url dev_name port gid_index id some_device = bind (dial_lem b rest url) λ fd.
      bind (register_lem os fd (blank b) rest id) λ _.
        bind (open_objects_lem os fd b rest dev_name some_device) λ (c, qp). record {
          run = λ w (p, q, h). (opened_lem fd b rest c p q qp port gid_index).run w h;
        }

  after_lem :
      (b buf len : ℕ) (flags : List Access) (xs : List Resource) (p : Result ℕ × Work)
      → Outcome (Ready b (Resource.session b ∷ xs)) (Failed b (Resource.session b ∷ xs)) p
      → Outcome (λ s'. Owns s' xs) (Holds xs) (after_handshake os buf len flags p)
  unfolding after_handshake
  after_lem b buf len flags xs p (good {a = fd} {s = w} (eb, em, h)) =
      (share_buffer_lem os w.session fd buf len flags xs em).run w.trace (rw eb h)
  after_lem b buf len flags xs p (bad {s = w} (eb, h)) =
      bad (cleanup_lem w.session xs w.trace (rw eb h))

  setup_lem :
      (url : Bytes) (dev_name : Option Bytes) (port gid_index : ℕ) (id : Bytes) (buf len : ℕ)
      (flags : List Access) (xs : List Resource)
      → HasDevice os
      → Triple
          (Holds xs)
          (setup os url dev_name port gid_index id buf len flags)
          (λ s. Owns s xs)
          (Holds xs)
  unfolding setup
  setup_lem url dev_name port gid_index id buf len flags xs some_device =
      bind (taken_lem Resource.session out_of_memory (λ t. os.malloc t 40) xs) λ b. record {
        run = λ t h. after_lem b buf len flags xs _ (
            (handshake_lem b (Resource.session b ∷ xs) url dev_name port gid_index id
                some_device).run
              (record { session = blank b; trace = t }) (refl, h));
      }

  pub rdma_recv_setup_lem :
      (url : Bytes) (dev_name : Option Bytes) (port gid_index : ℕ) (id : Bytes) (buf len : ℕ)
      (xs : List Resource)
      → HasDevice os
      → Triple
          (Holds xs)
          (rdma_recv_setup os url dev_name port gid_index id buf len)
          (λ s. Owns s xs)
          (Holds xs)
  unfolding rdma_recv_setup
  rdma_recv_setup_lem url dev_name port gid_index id buf len xs some_device =
      setup_lem url dev_name port gid_index id buf len _ xs some_device

  -- A receive setup that fails gives back all that it took, whatever failed; one that succeeds
  -- keeps the objects of its session and the block that holds it, and `rdma_session_destroy` gives
  -- these back. The device list has a device in it whenever there is one.
  pub rdma_recv_setup-Holds :
      (url : Bytes) (dev_name : Option Bytes) (port gid_index : ℕ) (id : Bytes) (buf len : ℕ)
      (xs : List Resource) (t : Trace)
      → HasDevice os
      → Holds xs t
      → Outcome
          (λ s t. Holds xs (rdma_session_destroy s t).1)
          (Holds xs)
          (rdma_recv_setup os url dev_name port gid_index id buf len t)
  rdma_recv_setup-Holds url dev_name port gid_index id buf len xs t some_device h =
      destroyed os
        ((rdma_recv_setup_lem url dev_name port gid_index id buf len xs some_device).run t h)

  pub rdma_send_setup_lem :
      (url : Bytes) (dev_name : Option Bytes) (port gid_index : ℕ) (id : Bytes) (buf len : ℕ)
      (xs : List Resource)
      → HasDevice os
      → Triple
          (Holds xs)
          (rdma_send_setup os url dev_name port gid_index id buf len)
          (λ s. Owns s xs)
          (Holds xs)
  unfolding rdma_send_setup
  rdma_send_setup_lem url dev_name port gid_index id buf len xs some_device =
      setup_lem url dev_name port gid_index id buf len _ xs some_device

  -- The same of a send setup.
  pub rdma_send_setup-Holds :
      (url : Bytes) (dev_name : Option Bytes) (port gid_index : ℕ) (id : Bytes) (buf len : ℕ)
      (xs : List Resource) (t : Trace)
      → HasDevice os
      → Holds xs t
      → Outcome
          (λ s t. Holds xs (rdma_session_destroy s t).1)
          (Holds xs)
          (rdma_send_setup os url dev_name port gid_index id buf len t)
  rdma_send_setup-Holds url dev_name port gid_index id buf len xs t some_device h =
      destroyed os
        ((rdma_send_setup_lem url dev_name port gid_index id buf len xs some_device).run t h)
