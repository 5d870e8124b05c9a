-- ===== src/Session/Objects.antt =====
-- The objects that the handshake takes, and the fields of the session that hold them.
use storefs.Prelude.{ℕ, ◌≡◌, ap, Option, none, some, List, [], ◌∷◌, ◌++◌}
use storefs.Prelude.Text.{Bytes}
use storefs.Os.{
  Resource, Os, alloc_pd_failed, create_cq_failed, create_qp_failed, open_device_failed, Prog,
}
use storefs.Os.Live.{Holds, good, bad, Triple, bind}
use storefs.Verbs.Leaks.{contexts, HasDevice, v_open_device_lem}
use storefs.Session.{
  rc_attr, Session, Work, blank, lift, set_ctx, set_pd, set_cq, set_qp, present, closing,
  open_objects,
}
use storefs.Session.Held.{objects, At, Failed, Triple-lift, Triple-closing, Triple-taking}

-- The session as it is filled.
abbrev pub with_ctx : (b c : ℕ) → Session
with_ctx b c = record (blank b) { ctx = some c }

abbrev pub with_pd : (b c p : ℕ) → Session
with_pd b c p = record (with_ctx b c) { pd = some p }

abbrev pub with_cq : (b c p q : ℕ) → Session
with_cq b c p q = record (with_pd b c p) { cq = some q }

abbrev pub filled : (b c p q qp : ℕ) → Session
filled b c p q qp = record (with_cq b c p q) { qp = some qp }

module _ (os : Os) (fd : ℕ) where
  -- A field takes the object that was made for it.
  abbrev pub Setting : List Resource → Session → Resource → Prog Work (Unit {0}) → Session → Type 0
  Setting rest s r m s' =
      Triple (λ w. (w.session ≡ s) × Holds (r ∷ (objects s ++ (Resource.socket fd ∷ rest))) w.trace)
        m (λ _. At s' (Resource.socket fd ∷ rest)) (Failed s.block rest)

  set_ctx_lem :
      (b : ℕ) (rest : List Resource) (c : ℕ)
      → Setting rest (blank b) (Resource.ctx c) (set_ctx c) (with_ctx b c)
  set_ctx_lem b rest c = record {
    run = λ w (e, h). good (ap {B = Session} (λ s. record s { ctx = some c }) e, h);
  }

  set_pd_lem :
      (b : ℕ) (rest : List Resource) (c p : ℕ)
      → Setting rest (with_ctx b c) (Resource.pd p) (set_pd p) (with_pd b c p)
  set_pd_lem b rest c p = record {
    run = λ w (e, h). good (ap {B = Session} (λ s. record s { pd = some p }) e, h);
  }

  set_cq_lem :
      (b : ℕ) (rest : List Resource) (c p q : ℕ)
      → Setting rest (with_pd b c p) (Resource.cq q) (set_cq q) (with_cq b c p q)
  set_cq_lem b rest c p q = record {
    run = λ w (e, h). good (ap {B = Session} (λ s. record s { cq = some q }) e, h);
  }

  set_qp_lem :
      (b : ℕ) (rest : List Resource) (c p q qp : ℕ)
      → Setting rest (with_cq b c p q) (Resource.qp qp) (set_qp qp) (filled b c p q qp)
  set_qp_lem b rest c p q qp = record {
    run = λ w (e, h). good (ap {B = Session} (λ s. record s { qp = some qp }) e, h);
  }

  abbrev pub Open : ℕ → List Resource → ℕ × ℕ → Work → Type 0
  Open b rest a w = (p : ℕ) × (q : ℕ) × At (filled b a.0 p q a.1) (Resource.socket fd ∷ rest) w

  present_lem :
      (b : ℕ) (rest : List Resource) (found : Option ℕ)
      → Triple
          (λ w.
            (w.session ≡ blank b)
            × Holds (contexts found ++ (objects (blank b) ++ (Resource.socket fd ∷ rest))) w.trace)
          (closing os fd (lift (present open_device_failed found)))
          (λ c w.
            (w.session ≡ blank b)
            × Holds (Resource.ctx c ∷ (objects (blank b) ++ (Resource.socket fd ∷ rest))) w.trace)
          (Failed b rest)
  present_lem b rest none =
      Triple-closing os fd (blank b) rest (λ c. Resource.ctx c ∷ []) (record { run = λ t h. bad h })
  present_lem b rest (some c) = record { run = λ w (e, h). good (e, h) }

  pub open_objects_lem :
      (b : ℕ) (rest : List Resource) (dev_name : Option Bytes)
      → HasDevice os
      → Triple
          (At (blank b) (Resource.socket fd ∷ rest))
          (open_objects os fd dev_name)
          (Open b rest)
          (Failed b rest)
  unfolding open_objects
  open_objects_lem b rest dev_name some_device =
      bind
        (Triple-lift os fd (blank b) rest contexts (v_open_device_lem os _ dev_name _ some_device))
        λ found. bind (present_lem b rest found) λ c. bind (set_ctx_lem b rest c) λ _.
          bind
            (Triple-taking os fd (with_ctx b c) rest Resource.pd alloc_pd_failed
              (λ t. os.alloc_pd t c))
            λ p. bind (set_pd_lem b rest c p) λ _.
              bind
                (Triple-taking os fd (with_pd b c p) rest Resource.cq create_cq_failed
                  (λ t. os.create_cq t c 2))
                λ q. bind (set_cq_lem b rest c p q) λ _.
                  bind
                    (Triple-taking os fd (with_cq b c p q) rest Resource.qp create_qp_failed
                      (λ t. os.create_qp t p (rc_attr q)))
                    λ qp.
                      bind (set_qp_lem b rest c p q qp) λ _. record { run = λ w h. good (p, q, h) }
