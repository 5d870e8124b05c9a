-- ===== src/Session/Held.antt =====
-- What a session holds, and how the steps of the handshake change it.
use storefs.Prelude.{ℕ, ◌≡◌, ap, true, Option, none, some, List, [], ◌∷◌, ◌++◌, arith}
use storefs.Os.{Resource, Trace, Os, Error, Result, Cmd, undoing, taken}
use storefs.Os.Live.{
  holds, drop_first, Holds, Outcome, good, bad, Triple, Neutral, Triple-Neutral, taken_lem,
}
use storefs.Ws.{ws_close}
use storefs.Ws.Leaks.{ws_close_lem}
use storefs.Session.{Session, Work, lifted, lift, closing}

abbrev pub owned : (ℕ → Resource) → Option ℕ → List Resource
owned r none = []
owned r (some x) = r x ∷ []

-- The objects of a session, the latest first.
abbrev pub objects : Session → List Resource
objects s =
    owned Resource.mr s.mr
    ++ (owned Resource.qp s.qp
        ++ (owned Resource.cq s.cq ++ (owned Resource.pd s.pd ++ owned Resource.ctx s.ctx)))

-- The session is `s`, and its objects are live in front of `rest`.
abbrev pub At : Session → List Resource → Work → Type 0
At s rest w = (w.session ≡ s) × Holds (objects s ++ rest) w.trace

-- The session as a failure leaves it: the socket is closed, and what is live is what the session
-- records, beside the block that holds it.
abbrev pub Failed : ℕ → List Resource → Work → Type 0
Failed b rest w = (w.session.block ≡ b) × Holds (objects w.session ++ rest) w.trace

drop_socket :
    (fd : ℕ) (s : Session) (rest : List Resource)
    → (drop_first (Resource.socket fd) (objects s ++ (Resource.socket fd ∷ rest))
        ≡ objects s ++ rest)
      × (holds (Resource.socket fd) (objects s ++ (Resource.socket fd ∷ rest)) ≡ true)
unfolding drop_first holds
drop_socket fd s rest = ground arith

module _ (os : Os) (fd : ℕ) (s : Session) (rest : List Resource) where
  pub closed :
      (t : Trace)
      → Holds (objects s ++ (Resource.socket fd ∷ rest)) t
      → Holds (objects s ++ rest) (ws_close os fd t).1
  closed t h =
      rw (← (drop_socket fd s rest).0) (
        ws_close_lem os fd (objects s ++ (Resource.socket fd ∷ rest)) t h (drop_socket fd s rest).1)

  -- A part of the handshake that leaves what is live alone, or that adds `extra` where it succeeds.
  closing-Outcome :
      {A : Type 0} (extra : A → List Resource) (w : Session) (p : Result A × Trace)
      → w ≡ s
      → Outcome
          (λ a. Holds (extra a ++ (objects s ++ (Resource.socket fd ∷ rest))))
          (Holds (objects s ++ (Resource.socket fd ∷ rest)))
          p
      → Outcome
          (λ a v.
            (v.session ≡ s) × Holds (extra a ++ (objects s ++ (Resource.socket fd ∷ rest))) v.trace)
          (Failed s.block rest)
          (undoing (lift (ws_close os fd)) (lifted w p))
  closing-Outcome extra w p e (good h) = good (e, h)
  closing-Outcome extra w p e (bad {s = t} h) = bad (ap {B = ℕ} (λ s. s.block) e, rw e (closed t h))

  pub Triple-closing :
      {A : Type 0} {m : Cmd A} (extra : A → List Resource)
      → Triple
          (Holds (objects s ++ (Resource.socket fd ∷ rest)))
          m
          (λ a. Holds (extra a ++ (objects s ++ (Resource.socket fd ∷ rest))))
          (Holds (objects s ++ (Resource.socket fd ∷ rest)))
      → Triple
          (At s (Resource.socket fd ∷ rest))
          (closing os fd (lift m))
          (λ a w.
            (w.session ≡ s) × Holds (extra a ++ (objects s ++ (Resource.socket fd ∷ rest))) w.trace)
          (Failed s.block rest)
  Triple-closing {m} extra hm = record {
    run = λ w (e, h). closing-Outcome extra w.session (m w.trace) e (hm.run w.trace h);
  }

  lifted-Outcome :
      {A : Type 0} (extra : A → List Resource) (w : Session) (p : Result A × Trace)
      → w ≡ s
      → Outcome
          (λ a. Holds (extra a ++ (objects s ++ (Resource.socket fd ∷ rest))))
          (Holds (objects s ++ rest))
          p
      → Outcome
          (λ a v.
            (v.session ≡ s) × Holds (extra a ++ (objects s ++ (Resource.socket fd ∷ rest))) v.trace)
          (Failed s.block rest)
          (lifted w p)
  lifted-Outcome extra w p e (good h) = good (e, h)
  lifted-Outcome extra w p e (bad {s = t} h) = bad (ap {B = ℕ} (λ s. s.block) e, rw e h)

  -- A part that does not fail.
  pub Triple-lift :
      {A : Type 0} {m : Cmd A} (extra : A → List Resource)
      → Triple
          (Holds (objects s ++ (Resource.socket fd ∷ rest)))
          m
          (λ a. Holds (extra a ++ (objects s ++ (Resource.socket fd ∷ rest))))
          (Holds (objects s ++ rest))
      → Triple
          (At s (Resource.socket fd ∷ rest))
          (lift m)
          (λ a w.
            (w.session ≡ s) × Holds (extra a ++ (objects s ++ (Resource.socket fd ∷ rest))) w.trace)
          (Failed s.block rest)
  Triple-lift {m} extra hm = record {
    run = λ w (e, h). lifted-Outcome extra w.session (m w.trace) e (hm.run w.trace h);
  }

  -- A neutral part, whose failure closes the socket.
  pub Neutral-closing :
      {A : Type 0} {m : Cmd A}
      → Neutral m
      → Triple
          (At s (Resource.socket fd ∷ rest))
          (closing os fd (lift m))
          (λ _. At s (Resource.socket fd ∷ rest))
          (Failed s.block rest)
  Neutral-closing {m} hm = Triple-closing (λ _. []) (Triple-Neutral _ hm)

  -- A call that gives an object, and the field of the session that takes it.
  pub Triple-taking :
      (r : ℕ → Resource) (e : Error) (call : Trace → Option ℕ)
      → Triple
          (At s (Resource.socket fd ∷ rest))
          (closing os fd (lift (λ t. taken r e (call t) t)))
          (λ x w.
            (w.session ≡ s) × Holds (r x ∷ (objects s ++ (Resource.socket fd ∷ rest))) w.trace)
          (Failed s.block rest)
  Triple-taking r e call = Triple-closing (λ x. r x ∷ []) (taken_lem r e call _)
