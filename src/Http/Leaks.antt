-- ===== src/Http/Leaks.antt =====
-- What a request over libcurl holds when it ends.
use storefs.Prelude.{
  ℕ, Bool, true, false, Option, none, some, List, [], ◌∷◌, ◌++◌, arith, ◌==◌, refl, ap,
  if◌then◌else◌,
}
use storefs.Prelude.Text.{Bytes}
use storefs.Os.{
  Resource, easy, slist, block, acquired, released, Request, Trace, request_failed,
  curl_init_failed, Os, emit, pure, when◌then◌else◌, ◌>>◌,
}
use storefs.Os.Live.{live, sound, same, kind, ident, Holds, good, Triple, bind}
use storefs.Os.Rules.{acquire_lem, release_lem, requested_lem, ask_lem, pure_lem, outcome_lem}
use storefs.Headers.{free_headers}
use storefs.Headers.Whole.{Appends, header_list, IsList, known, free_headers_lem, headers_lem}
use storefs.Response.{ResponseBuf, collect, empty}
use storefs.Sign.{Config}
use storefs.Multipart.Sign as Multi
use storefs.Http.{
  rejected, signed_length, request_url, request_headers, verb_of, Answer, body_block, free_body,
  transfer, transfer_with, s3_request,
}

-- The block of a response that took one.
abbrev pub body_blocks : ResponseBuf → List Resource
body_blocks buf = if buf.cap == 0 then [] else block body_block ∷ []

free_cases :
    (b : Bool) (xs : List Resource)
    → Triple
        (Holds ((if b then [] else block body_block ∷ []) ++ xs))
        (when b then pure tt else emit (released (block body_block)))
        (λ _. Holds xs)
        (Holds xs)
free_cases true xs = pure_lem tt
free_cases false xs = release_lem (block body_block) xs

pub free_body_lem :
    (buf : ResponseBuf) (xs : List Resource)
    → Triple (Holds (body_blocks buf ++ xs)) (free_body buf) (λ _. Holds xs) (Holds xs)
unfolding free_body
free_body_lem buf xs = free_cases (buf.cap == 0) xs

-- The block, which the response took behind the handle and the headers, outlives both.
settle :
    {Q : Answer → Trace → Type 0} {E : Trace → Type 0} (b : Bool) (a : Answer) (c : ℕ)
    (hs : List Bytes) (xs : List Resource)
    → ((t : Trace) → Holds ((if b then [] else block body_block ∷ []) ++ xs) t → Q a t)
    → Triple
        (Holds (easy c ∷ header_list hs ++ xs))
        (do
          when b then pure tt else emit (acquired (block body_block))
          free_headers hs
          emit (released (easy c))
          pure a)
        Q
        E
unfolding free_headers live sound same kind ident
settle true a c [] xs then_q = record { run = λ t h. good (then_q _ (ground arith)) }
settle false a c [] xs then_q = record { run = λ t h. good (then_q _ (ground arith)) }
settle true a c (x ∷ hs) xs then_q = record { run = λ t h. good (then_q _ (ground arith)) }
settle false a c (x ∷ hs) xs then_q = record { run = λ t h. good (then_q _ (ground arith)) }

module _ (os : Os) where
  transfer_lem :
      (req : Request) (c : ℕ) (xs : List Resource)
      → Triple
          (Holds (header_list req.headers ++ xs))
          (transfer os req c)
          (λ a. Holds (body_blocks a.body ++ xs))
          (Holds xs)
  unfolding transfer
  transfer_lem req c xs = bind (acquire_lem (easy c) (header_list req.headers ++ xs)) λ _.
      bind (ask_lem (λ t. os.perform t req)) λ r.
        bind (requested_lem req (easy c ∷ header_list req.headers ++ xs)) λ _.
          bind (ask_lem (λ t. collect (os.realloc t) r.chunks empty)) λ buf.
            settle (buf.cap == 0)
              (record {
                failure = if rejected r buf then some request_failed else none;
                body = buf;
              })
              c req.headers xs (λ t h. h)

  transfer_with_lem :
      (handle : Option ℕ) (req : Request) (xs : List Resource)
      → IsList req.headers
      → Triple
          (Holds (slist 0 ∷ xs))
          (transfer_with os handle req)
          (λ a. Holds (body_blocks a.body ++ xs))
          (Holds xs)
  unfolding transfer_with
  transfer_with_lem none req xs there = rw (← ap (λ ys. ys ++ xs) there) (
      bind (free_headers_lem req.headers xs)
        λ _. pure_lem (record { failure = some curl_init_failed; body = empty }))
  transfer_with_lem (some c) req xs there = rw (← ap (λ ys. ys ++ xs) there) (transfer_lem req c xs)

  pub s3_request_lem :
      (cfg : Config) (method bucket : Bytes) (key query body : Option Bytes)
      (extra : Option (Bytes × Bytes)) (xs : List Resource)
      → Appends os
      → Triple
          (Holds xs)
          (s3_request os cfg method bucket key query body extra)
          (λ a. Holds (body_blocks a.body ++ xs))
          (Holds xs)
  unfolding s3_request request_headers live sound
  s3_request_lem cfg method bucket key query body extra xs appends = bind (ask_lem os.time) λ now.
      bind
        (outcome_lem (Multi.sign_request os cfg method bucket key query (signed_length body) now))
        λ s. bind (headers_lem os (request_headers s extra) refl appends (λ t h. held t h)) λ hs.
          known λ e. bind (ask_lem os.easy_init) λ handle.
            transfer_with_lem handle
              (record {
                url = request_url cfg bucket key query;
                headers = hs;
                verb = verb_of method body;
                ignore_content_length = false;
              })
              xs (ap header_list e)
    where
      held : (t : Trace) → Holds xs t → Holds (slist 0 ∷ xs) (acquired (slist 0) ∷ t)
      held t h = ground arith
