-- ===== src/Http/Success.antt =====
-- What is known of a request over libcurl that succeeds.
use storefs.Prelude.{
  ap, sym, ℕ, ◌≡◌, ◌≤◌, ◌<◌, refl, Bool, true, false, Option, none, some, List, [], ◌∷◌, length,
  concat, ◌==◌, arith, if◌then◌else◌,
}
use storefs.Prelude.Text.{Bytes}
use storefs.Os.{
  easy, acquired, requested, Request, Response, Trace, Os, Event, released, block, Error, Result,
  ok, err, request_failed, curl_init_failed, emit, pure, ◌>>◌, when◌then◌else◌,
}
use storefs.Headers.{free_headers}
use storefs.Headers.Whole.{Appends, known, headers_lem}
use storefs.Response.{ResponseBuf, collect, empty}
use storefs.Response.Whole.{collect-whole}
use storefs.Os.Rules.{ask_lem, outcome_lem}
use storefs.Sign.{Config, Signed}
use storefs.Multipart.Sign as Multi
use storefs.Os.Live.{Outcome, good, bad, Triple, bind}
use storefs.Http.{
  request_url, request_headers, verb_of, signed_length, s3_request, body_block, Answer, rejected,
  transfer, transfer_with,
}

accepted :
    (r : Response) (buf : ResponseBuf)
    → rejected r buf ≡ false
    → (r.done ≡ true)
      × (200 ≤ r.status)
      × (r.status < 300)
      × (length buf.bytes ≡ length (concat r.chunks))
unfolding rejected
accepted r buf e = (ground arith, ground arith, ground arith, ground arith)

-- What a transfer ended with: the body of a response that was not rejected.
abbrev pub Received : Response → Answer → Type 0
Received r a =
    (a.body.bytes ≡ concat r.chunks) × (200 ≤ r.status) × (r.status < 300) × (r.done ≡ true)

received_lem :
    (r : Response) (realloc : ℕ → Bool)
    → (if rejected r (collect realloc r.chunks empty) then some request_failed else none) ≡ none
    → Received r (record {
      failure = if rejected r (collect realloc r.chunks empty) then some request_failed else none;
      body = collect realloc r.chunks empty;
    })
received_lem r realloc h =
    let (done, low, high, whole) = accepted r (collect realloc r.chunks empty) (ground arith) in
    (collect-whole realloc r.chunks whole, low, high, done)

-- Nothing is asked of the trace.
abbrev pub Anything : Trace → Type 0
Anything t = Unit {0}

some-none : {A : Type 0} {x : A} → some x ≡ none → ⊥
some-none h = cc

passed : (e : Event) → Triple Anything (emit e) (λ _. Anything) Anything
passed e = record { run = λ t h. good tt }

settled :
    {Q : Answer → Type 0} (b : Bool) (hs : List Bytes) (c : ℕ) (a : Answer)
    → Q a
    → Triple Anything
        (do
          when b then pure tt else emit (acquired (block body_block))
          free_headers hs
          emit (released (easy c))
          pure a)
        (λ a _. Q a)
        Anything
unfolding free_headers
settled true [] c a q = record { run = λ t h. good q }
settled false [] c a q = record { run = λ t h. good q }
settled true (x ∷ hs) c a q = record { run = λ t h. good q }
settled false (x ∷ hs) c a q = record { run = λ t h. good q }

rejected_always :
    {Q : Answer → Type 0} (hs : List Bytes) (a : Answer) (e : Error)
    → a.failure ≡ some e
    → Triple Anything (do free_headers hs; pure a) (λ a _. a.failure ≡ none → Q a) Anything
unfolding free_headers
rejected_always [] a e h = record { run = λ t p. good (λ k. absurd cc) }
rejected_always (x ∷ hs) a e h = record { run = λ t p. good (λ k. absurd cc) }

-- The request that the arguments and the signature make.
abbrev pub request_of :
    Config
    → (method bucket : Bytes) → (key query body : Option Bytes) → Option (Bytes × Bytes)
    → Signed
    → Request
request_of cfg method bucket key query body extra s = record {
  url = request_url cfg bucket key query;
  headers = request_headers s extra;
  verb = verb_of method body;
  ignore_content_length = false;
}

pub mapped :
    {S A : Type 0} {Q R : A → Type 0} {E : S → Type 0} {p : Result A × S}
    → ((a : A) → Q a → R a)
    → Outcome (λ a _. Q a) E p
    → Outcome (λ a _. R a) E p
mapped f (good q) = good (f _ q)
mapped f (bad h) = bad h

pub good_at :
    {S A : Type 0} {Q : A → Type 0} {E : S → Type 0} {p : Result A × S} {a : A} {s : S}
    → Outcome (λ a _. Q a) E p
    → p ≡ (ok a, s)
    → Q a
good_at {A} {Q} {a} (good {a = b} q) e =
    rw (sym (ap {B = A} (λ p. elim p.0 [ ok x ↦ x | err _ ↦ b ]) e)) q
good_at (bad h) e = absurd cc

module _ (os : Os) where
  transfer_lem :
      (req : Request) (c : ℕ)
      → Triple Anything
          (transfer os req c)
          (λ a _. a.failure ≡ none → (t0 : Trace) × Received (os.perform t0 req) a)
          Anything
  unfolding transfer
  transfer_lem req c = record {
    run = λ t h.
        let r = os.perform (acquired (easy c) ∷ t) req in
        let buf = collect (os.realloc (requested req ∷ acquired (easy c) ∷ t)) r.chunks empty in
        (settled (buf.cap == 0) req.headers c
            (record { failure = if rejected r buf then some request_failed else none; body = buf })
            (λ k. (
              acquired (easy c) ∷ t,
              received_lem r (os.realloc (requested req ∷ acquired (easy c) ∷ t)) k,
            ))).run
          (requested req ∷ acquired (easy c) ∷ t) tt;
  }

  signed_with :
      (cfg : Config) (method bucket : Bytes) (key query body : Option Bytes)
      (extra : Option (Bytes × Bytes)) (s : Signed) (c : ℕ)
      → Triple Anything
          (transfer os (request_of cfg method bucket key query body extra s) c)
          (λ a _.
            a.failure ≡ none
            → (s : Signed) × (t0 : Trace) × Received
                (os.perform t0 (request_of cfg method bucket key query body extra s))
                a)
          Anything
  signed_with cfg method bucket key query body extra s c = record {
    run = λ t h.
        mapped (λ a q k. (s, (q k).0, (q k).1))
          ((transfer_lem (request_of cfg method bucket key query body extra s) c).run t h);
  }

  -- Without a handle the request does not succeed.
  transfer_with_lem :
      (handle : Option ℕ) (cfg : Config) (method bucket : Bytes) (key query body : Option Bytes)
      (extra : Option (Bytes × Bytes)) (s : Signed) (hs : List Bytes)
      → hs ≡ request_headers s extra
      → Triple Anything
          (transfer_with os handle (record {
            url = request_url cfg bucket key query;
            headers = hs;
            verb = verb_of method body;
            ignore_content_length = false;
          }))
          (λ a _.
            a.failure ≡ none
            → (s : Signed) × (t0 : Trace) × Received
                (os.perform t0 (request_of cfg method bucket key query body extra s))
                a)
          Anything
  unfolding transfer_with
  transfer_with_lem none cfg method bucket key query body extra s hs e =
      rejected_always hs (record { failure = some curl_init_failed; body = empty }) curl_init_failed
        refl
  transfer_with_lem (some c) cfg method bucket key query body extra s hs e =
      rw e (signed_with cfg method bucket key query body extra s c)

  s3_request_lem :
      (cfg : Config) (method bucket : Bytes) (key query body : Option Bytes)
      (extra : Option (Bytes × Bytes))
      → Appends os
      → Triple Anything
          (s3_request os cfg method bucket key query body extra)
          (λ a _.
            a.failure ≡ none
            → (s : Signed) × (t0 : Trace) × Received
                (os.perform t0 (request_of cfg method bucket key query body extra s))
                a)
          Anything
  unfolding s3_request request_headers
  s3_request_lem cfg method bucket key query body extra appends = bind (ask_lem os.time) λ now.
      bind
        (outcome_lem (Multi.sign_request os cfg method bucket key query (signed_length body) now))
        λ s.
          bind (headers_lem os {P' = Anything} (request_headers s extra) refl appends (λ t h. tt))
            λ hs. known λ e.
              bind (ask_lem os.easy_init)
                λ handle. transfer_with_lem handle cfg method bucket key query body extra s hs e

  -- A request that succeeds brings its response whole: libcurl answered the request that the arguments
  -- and a signature make, with a status from 200 to 299, and the body that is left is all chunks of the
  -- answer in their order, whatever memory the response was refused on the way; for a libcurl that
  -- has memory for each header.
  pub s3_request-concat :
      (cfg : Config) (method bucket : Bytes) (key query body : Option Bytes)
      (extra : Option (Bytes × Bytes)) (a : Answer) (t t' : Trace)
      → Appends os
      → s3_request os cfg method bucket key query body extra t ≡ (ok a, t')
      → a.failure ≡ none
      → (s : Signed) × (t0 : Trace) × Received
          (os.perform t0 (request_of cfg method bucket key query body extra s))
          a
  s3_request-concat cfg method bucket key query body extra a t t' appends e h =
      good_at ((s3_request_lem cfg method bucket key query body extra appends).run t tt) e h
