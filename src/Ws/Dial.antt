-- ===== src/Ws/Dial.antt =====
-- What `ws_dial` of examples/rdma/c/rdmalib.c holds when it ends.
use storefs.Prelude.{
  ℕ, zero, suc, Option, none, some, List, [], ◌∷◌, ◌++◌, arith, inl, inr, Option-cases, Bool-cases,
}
use storefs.Prelude.Text.{Bytes, printed}
use storefs.Prelude.Decimal.{signed_decimal}
use storefs.Os.{Resource, failed, acquired, released, Trace, Os, invalid_url, fail, emit}
use storefs.Os.Live.{
  live, sound, Holds, Outcome, good, bad, Triple, bind, Triple-or_else, Neutral, Neutral-bind,
  Neutral-pure, Neutral-fail, Neutral-when, Neutral-report,
}
use storefs.Url.{Url, ws_parse_url}
use storefs.Ws.{connect_any, read_response, resolve, opened, upgrade, dial_url, ws_dial}
use storefs.Ws.Leaks.{Neutral-rand_bytes, Neutral-write_all, Neutral-read_some}

abbrev sockets : Option ℕ → List Resource
sockets none = []
sockets (some fd) = Resource.socket fd ∷ []

module _ (os : Os) where
  connect_any_run :
      (E : Trace → Type 0) (res : List ℕ) (xs : List Resource) (t : Trace)
      → Holds xs t
      → Outcome (λ o. Holds (sockets o ++ xs)) E (connect_any os res t)
  unfolding connect_any live sound
  connect_any_run E [] xs t h = good h
  connect_any_run E (a ∷ rest) xs t h = elim (Option-cases (os.socket t a)) [
    | inl e ↦ rw (e, connect_any) (connect_any_run E rest xs (failed ∷ t) h)
    | inr (fd, e) ↦
        let t' : Trace = acquired (Resource.socket fd) ∷ t in
        rw (e, connect_any)
          (elim (Bool-cases (os.connect t' fd a)) [
            | inl c ↦ rw c (good (ground arith))
            | inr c ↦ rw c (
                connect_any_run E rest xs (released (Resource.socket fd) ∷ failed ∷ t')
                  (ground arith))
          ])
  ]

  resolved :
      (url : Url) (xs : List Resource)
      → Triple (Holds xs) (resolve os url) (λ _. Holds (Resource.addresses 0 ∷ xs)) (Holds xs)
  unfolding resolve live sound
  resolved url xs = record {
    run = λ t h.
        elim (Option-cases (os.getaddrinfo t url.host (printed 8 (signed_decimal url.port)))) [
          | inl e ↦ rw (e, resolve) (bad h)
          | inr (res, e) ↦ rw (e, resolve) (good (ground arith))
        ];
  }

  Neutral-read_response : (room fd : ℕ) (resp : Bytes) → Neutral (read_response os room fd resp)
  unfolding read_response
  Neutral-read_response zero fd resp = Neutral-pure resp
  Neutral-read_response (suc room) fd resp =
      Neutral-bind (Neutral-read_some os fd 1)
        λ c. Neutral-when _ (Neutral-pure _) (Neutral-read_response room fd _)

  Neutral-upgrade : (url : Url) (fd : ℕ) → Neutral (upgrade os url fd)
  unfolding upgrade
  Neutral-upgrade url fd = Neutral-bind (Neutral-rand_bytes os 16) λ key.
      Neutral-bind (Neutral-when _ (Neutral-write_all os fd _ _) (Neutral-fail _)) λ _.
        Neutral-bind (Neutral-report _ (Neutral-read_response 2047 fd []))
          λ resp. Neutral-when _ (Neutral-fail _) (Neutral-pure tt)

  connected :
      (E : Trace → Type 0) (res : List ℕ) (xs : List Resource)
      → Triple (Holds xs) (connect_any os res) (λ o. Holds (sockets o ++ xs)) E
  connected E res xs = record { run = connect_any_run E res xs }

  addresses_released :
      (E : Trace → Type 0) (found : Option ℕ) (xs : List Resource)
      → Triple
          (Holds (sockets found ++ (Resource.addresses 0 ∷ xs)))
          (emit (released (Resource.addresses 0)))
          (λ _. Holds (sockets found ++ xs))
          E
  unfolding live sound
  addresses_released E none xs = record { run = λ t h. good (ground arith) }
  addresses_released E (some fd) xs = record { run = λ t h. good (ground arith) }

  opened_lem :
      (found : Option ℕ) (xs : List Resource)
      → Triple
          (Holds (sockets found ++ xs))
          (opened found)
          (λ fd. Holds (Resource.socket fd ∷ xs))
          (Holds xs)
  opened_lem none xs = record { run = λ t h. bad h }
  opened_lem (some fd) xs = record { run = λ t h. good h }

  socket_released :
      (fd : ℕ) (xs : List Resource) (t : Trace)
      → Holds (Resource.socket fd ∷ xs) t
      → Holds xs (released (Resource.socket fd) ∷ t)
  unfolding live sound
  socket_released fd xs t h = ground arith

  dial_url_lem :
      (url : Url) (xs : List Resource)
      → Triple (Holds xs) (dial_url os url) (λ fd. Holds (Resource.socket fd ∷ xs)) (Holds xs)
  unfolding dial_url
  dial_url_lem url xs = bind (resolved url xs) λ res.
      bind (connected (Holds xs) res (Resource.addresses 0 ∷ xs)) λ found.
        bind (addresses_released (Holds xs) found xs) λ _. bind (opened_lem found xs) λ fd.
          bind
            (Triple-or_else (emit (released (Resource.socket fd))) (Resource.socket fd ∷ xs)
              (Neutral-upgrade url fd) (socket_released fd xs))
            λ _. record { run = λ t h. good h }

  -- `ws_dial` leaves what was live as it was, and one socket more where it succeeds.
  pub ws_dial_lem :
      (url : Bytes) (xs : List Resource)
      → Triple (Holds xs) (ws_dial os url) (λ fd. Holds (Resource.socket fd ∷ xs)) (Holds xs)
  unfolding ws_dial
  ws_dial_lem url xs =
      elim (ws_parse_url url 256 256)
        as (λ o.
          Triple (Holds xs) (elim o [ none ↦ fail invalid_url | some u ↦ dial_url os u ])
            (λ fd. Holds (Resource.socket fd ∷ xs)) (Holds xs)) [
              | none ↦ record { run = λ t h. bad h }
              | some u ↦ dial_url_lem u xs
            ]

  -- `ws_dial` releases all that it takes, whatever goes wrong; where it succeeds it leaves the socket
  -- that it returns, and nothing else, to its caller. Nothing is released twice.
  pub ws_dial-Holds :
      (url : Bytes) (xs : List Resource) (t : Trace)
      → Holds xs t
      → Outcome (λ fd. Holds (Resource.socket fd ∷ xs)) (Holds xs) (ws_dial os url t)
  ws_dial-Holds url xs t h = (ws_dial_lem url xs).run t h
