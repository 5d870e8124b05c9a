-- ===== src/Session/Share.antt =====
-- The memory region and the token, and what a session holds when they are done or given up.
use storefs.Prelude.{ℕ, ◌≡◌, refl, sym, Option, none, some, List, ◌∷◌, ◌++◌, arith, ◌%◌, ◌^◌}
use storefs.Os.{
  ok, err, emit, registered, Resource, Access, Trace, Os, reg_mr_failed, token_not_sent, Result,
  Cmd, pure, ◌>>◌, or_else, undoing, report,
}
use storefs.Os.Live.{
  live, sound, Holds, Outcome, good, bad, Triple, bind, Neutral-report, taken_lem, Triple-or_else,
}
use storefs.Protocol.{send_token}
use storefs.Protocol.Leaks.{Neutral-send_token}
use storefs.Ws.{ws_close}
use storefs.Ws.Leaks.{ws_close_ok}
use storefs.Session.{Session, cleanup, rdma_session_destroy, register_region, share_buffer}
use storefs.Session.Held.{objects, closed}

-- What `s` and its block hold, in front of `xs`.
abbrev pub Owns : Session → List Resource → Trace → Type 0
Owns s xs = Holds (objects s ++ (Resource.session s.block ∷ xs))

-- The same with the socket `fd` open.
abbrev pub Wired : ℕ → Session → List Resource → Trace → Type 0
Wired fd s xs = Holds (objects s ++ (Resource.socket fd ∷ Resource.session s.block ∷ xs))

pub cleanup_lem :
    (s : Session) (xs : List Resource) (t : Trace)
    → Holds (objects s ++ (Resource.session s.block ∷ xs)) t
    → Holds xs (cleanup s t).1
unfolding cleanup live sound
cleanup_lem s xs t h = ground arith

cleanup_ok : (s : Session) (t : Trace) → (cleanup s t).0 ≡ ok tt
unfolding cleanup
cleanup_ok s t = ground arith

ended_well :
    {E : Trace → Type 0} {xs : List Resource} (p : Result (Unit {0}) × Trace)
    → p.0 ≡ ok tt
    → Holds xs p.1
    → Outcome (λ _. Holds xs) E p
ended_well (ok a, t) e h = good h
ended_well (err f, t) e h = ground arith

module _ (os : Os) where
  caught :
      {A : Type 0} {Q : A → Trace → Type 0} {E F : Trace → Type 0} {p : Result A × Trace}
      (undo : Cmd (Unit {0}))
      → Outcome Q E p
      → ((t : Trace) → E t → F (undo t).1)
      → Outcome Q F (undoing undo p)
  caught undo (good h) back = good h
  caught undo (bad h) back = bad (back _ h)

  -- The region's rights are noted in the trace.
  noted :
      (m : ℕ) (flags : List Access) (ys : List Resource)
      → Triple
          (Holds (Resource.mr m ∷ ys))
          (emit (registered m flags) >> pure m)
          (λ n. Holds (Resource.mr n ∷ ys))
          (Holds ys)
  unfolding live sound
  noted m flags ys = record { run = λ t h. good h }

  region_of :
      (s : Session) (pd : Option ℕ) (buf len : ℕ) (flags : List Access) (ys : List Resource)
      → s.pd ≡ pd
      → Triple
          (Holds ys)
          (register_region os s buf len flags)
          (λ m. Holds (Resource.mr m ∷ ys))
          (Holds ys)
  unfolding register_region
  region_of s none buf len flags ys e = record { run = λ t h. rw (e, register_region) (bad h) }
  region_of s (some p) buf len flags ys e = record {
    run = λ t h.
        rw (e, register_region)
          ((bind (taken_lem Resource.mr reg_mr_failed (λ t. os.reg_mr t p buf len flags) ys)
              λ m. noted m flags ys).run
            t h);
  }

  given_up :
      (fd : ℕ) (s : Session) (xs : List Resource) (t : Trace)
      → Wired fd s xs t
      → Holds xs ((ws_close os fd >> cleanup s) t).1
  given_up fd s xs t h =
      rw (ws_close_ok os fd t, ◌>>◌)
        (cleanup_lem s xs (ws_close os fd t).1 (closed os fd s (Resource.session s.block ∷ xs) t h))

  done_lem :
      (fd : ℕ) (s : Session) (xs : List Resource)
      → Triple (Wired fd s xs) (do ws_close os fd; pure s) (λ s'. Owns s' xs) (Holds xs)
  done_lem fd s xs = record {
    run = λ t h.
        rw (ws_close_ok os fd t, ◌>>◌) (good (closed os fd s (Resource.session s.block ∷ xs) t h));
  }

  with_region :
      (s : Session) (m : ℕ) (ys : List Resource)
      → s.mr ≡ none
      → objects (record s { mr = some m }) ++ ys ≡ Resource.mr m ∷ (objects s ++ ys)
  with_region s m ys em = rw em refl

  pub destroyed :
      {xs : List Resource} {p : Result Session × Trace}
      → Outcome (λ s. Owns s xs) (Holds xs) p
      → Outcome (λ s t. Holds xs (rdma_session_destroy s t).1) (Holds xs) p
  unfolding rdma_session_destroy
  destroyed (good {a = s} {s = t} h) = good (cleanup_lem s _ t h)
  destroyed (bad h) = bad h

  pub destroy_lem :
      {E : Trace → Type 0} (s : Session) (xs : List Resource)
      → Triple (Owns s xs) (rdma_session_destroy s) (λ _. Holds xs) E
  unfolding rdma_session_destroy
  destroy_lem s xs = record {
    run = λ t h. ended_well (cleanup s t) (cleanup_ok s t) (cleanup_lem s xs t h);
  }

  -- Behind the region: the token and the end of the websocket.
  shared_lem :
      (s : Session) (fd buf key len : ℕ) (xs ys : List Resource)
      → ys ≡ objects s ++ (Resource.socket fd ∷ Resource.session s.block ∷ xs)
      → Triple
          (Holds ys)
          (do
            or_else
                (report token_not_sent (send_token os fd buf key 0 len))
                (ws_close os fd >> cleanup s)
            ws_close os fd
            pure s)
          (λ s'. Owns s' xs)
          (Holds xs)
  shared_lem s fd buf key len xs ys e = rw e (
      bind
        (Triple-or_else (ws_close os fd >> cleanup s)
          (objects s ++ (Resource.socket fd ∷ Resource.session s.block ∷ xs))
          (Neutral-report token_not_sent (Neutral-send_token os fd buf key 0 len))
          (given_up fd s xs))
        λ _. done_lem fd s xs)

  pub share_buffer_lem :
      (s : Session) (fd buf len : ℕ) (flags : List Access) (xs : List Resource)
      → s.mr ≡ none
      → Triple (Wired fd s xs) (share_buffer os s fd buf len flags) (λ s'. Owns s' xs) (Holds xs)
  unfolding share_buffer
  share_buffer_lem s fd buf len flags xs em =
      bind
        (record {
          run = λ t h.
              caught (ws_close os fd >> cleanup s) ((region_of s s.pd buf len flags _ refl).run t h)
                (given_up fd s xs);
        })
        λ m.
          shared_lem (record s { mr = some m }) fd (buf % 2 ^ 64) (os.rkey m) (len % 2 ^ 64) xs
            (Resource.mr m ∷ (objects s ++ (Resource.socket fd ∷ Resource.session s.block ∷ xs)))
            (sym (with_region s m _ em))
