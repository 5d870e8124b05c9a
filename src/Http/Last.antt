-- ===== src/Http/Last.antt =====
-- The last request that a program made.
use storefs.Prelude.{
  ℕ, ◌≡◌, refl, ◌==◌, Bool, true, false, Option, none, some, List, [], ◌∷◌, if◌then◌else◌,
}
use storefs.Prelude.Text.{Bytes}
use storefs.Os.{
  acquired, released, requested, easy, slist, block, Request, Trace, Os, request_failed, ok, emit,
  pure, ◌>>◌, when◌then◌else◌,
}
use storefs.Os.Live.{Outcome, good, Triple}
use storefs.Headers.{free_headers}
use storefs.Headers.Whole.{Appends, append_headers-Appends}
use storefs.Response.{ResponseBuf, collect, empty}
use storefs.Sign.{Config, Signed}
use storefs.Multipart.Sign as Multi
use storefs.Http.{
  Answer, body_block, rejected, signed_length, free_body, request_headers, transfer, transfer_with,
  s3_request,
}
use storefs.Http.Success.{Anything, request_of}

unfoldable pub last_request : Trace → Option Request
last_request [] = none
last_request (requested r ∷ t) = some r
last_request (_ ∷ t) = last_request t

-- The last request is `r`.
abbrev pub Last : Request → Trace → Type 0
Last r t = last_request t ≡ some r

-- It does not come to this.
abbrev Never : Trace → Type 0
Never t = ⊥

settled :
    (b : Bool) (c : ℕ) (hs : List Bytes) (a : Answer) (r : Request)
    → Triple
        (Last r)
        (do
          when b then pure tt else emit (acquired (block body_block))
          free_headers hs
          emit (released (easy c))
          pure a)
        (λ _. Last r)
        Never
unfolding free_headers last_request
settled true c [] a r = record { run = λ t h. good h }
settled false c [] a r = record { run = λ t h. good h }
settled true c (x ∷ hs) a r = record { run = λ t h. good h }
settled false c (x ∷ hs) a r = record { run = λ t h. good h }

pub free_body-Last :
    (buf : ResponseBuf) (r : Request) → Triple (Last r) (free_body buf) (λ _. Last r) (Last r)
unfolding free_body last_request
free_body-Last buf r = freed (buf.cap == 0)
  where
    freed :
        (b : Bool)
        → Triple
            (Last r)
            (when b then pure tt else emit (released (block body_block)))
            (λ _. Last r)
            (Last r)
    freed true = record { run = λ t h. good h }
    freed false = record { run = λ t h. good h }

module _ (os : Os) where
  transfer-Last :
      (req : Request) (c : ℕ) → Triple Anything (transfer os req c) (λ _. Last req) Never
  unfolding transfer last_request
  transfer-Last req c = record {
    run = λ t h.
        let r = os.perform (acquired (easy c) ∷ t) req in
        let buf = collect (os.realloc (requested req ∷ acquired (easy c) ∷ t)) r.chunks empty in
        (settled (buf.cap == 0) c req.headers
            (record { failure = if rejected r buf then some request_failed else none; body = buf })
            req).run
          (requested req ∷ acquired (easy c) ∷ t) refl;
  }

  -- libcurl always gives a handle.
  abbrev pub Inits : Type 0
  Inits = (t : Trace) → (c : ℕ) × (os.easy_init t ≡ some c)

  pub s3_request-Last :
      (cfg : Config) (method bucket : Bytes) (key query body : Option Bytes)
      (extra : Option (Bytes × Bytes)) (t : Trace) (s : Signed)
      → Appends os
      → Inits
      → Multi.sign_request os cfg method bucket key query (signed_length body) (os.time t) ≡ ok s
      → Outcome
          (λ _. Last (request_of cfg method bucket key query body extra s))
          Never
          (s3_request os cfg method bucket key query body extra t)
  unfolding s3_request transfer_with request_headers
  s3_request-Last cfg method bucket key query body extra t s appends inits e =
      let (c, there) = inits (acquired (slist 0) ∷ t) in
      rw (s3_request, e, append_headers-Appends os _ _ t appends, there)
        ((transfer-Last (request_of cfg method bucket key query body extra s) c).run
          (acquired (slist 0) ∷ t) tt)
