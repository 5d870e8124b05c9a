-- ===== src/Client/Leaks.antt =====
-- What a request of examples/rdma/c/s3client.c holds when it ends.
use storefs.Prelude.{
  ℕ, ◌==◌, ◌&&◌, ◌||◌, Bool, true, false, Option, none, some, List, [], ◌∷◌, ◌++◌, ◌≡◌, refl, ap,
  arith,
}
use storefs.Prelude.Int.{negsuc}
use storefs.Prelude.Text.{Bytes, codes}
use storefs.Os.{Resource, easy, slist, get, put, head, Verb, Request, Trace, Os, request_failed}
use storefs.Os.Live.{live, sound, same, kind, ident, Holds, Triple, good, bind}
use storefs.Os.Rules.{
  Kept, acquire_lem, ask_lem, outcome_lem, pure_lem, fail_lem, release_lem, when_lem,
}
use storefs.Sign.{Config, sign_request}
use storefs.Headers.{free_headers}
use storefs.Headers.Whole.{Appends, IsList, header_list, known, headers_lem, more_headers_lem}
use storefs.Client.{
  header_lines, client_url, client_headers, added_header, note_handle, perform_request,
  client_request, s3_head_object, s3_get_object, s3_put_object,
}

-- The handle, where there is one.
abbrev easy_list : Option ℕ → List Resource
easy_list none = []
easy_list (some c) = easy c ∷ []

note_handle_lem :
    {E : Trace → Type 0} (handle : Option ℕ) (xs : List Resource)
    → Triple (Holds xs) (note_handle handle) (λ _. Holds (easy_list handle ++ xs)) E
unfolding note_handle
note_handle_lem none xs = pure_lem tt
note_handle_lem (some c) xs = acquire_lem (easy c) xs

module _ (os : Os) where
  -- The headers and the handle are given back, with the handle or without one.
  performed_lem :
      (handle : Option ℕ) (hs : List Bytes) (req : Request) (xs : List Resource)
      → IsList hs
      → req.headers ≡ hs
      → Triple
          (Holds (easy_list handle ++ slist 0 ∷ xs))
          (perform_request os handle req)
          (λ _. Holds xs)
          (Holds xs)
  unfolding perform_request free_headers live sound same kind ident
  performed_lem handle [] req xs there e = absurd cc
  performed_lem none (h ∷ hs) req xs there e = rw e (
      bind (release_lem (slist 0) xs)
        λ _. pure_lem (record { done = false; status = 0; lines = []; chunks = [] }))
  performed_lem (some c) (h ∷ hs) req xs there e = record {
    run = λ t p. rw e (good (ground arith));
  }

  client_request_lem :
      (cfg : Config) (bucket : Bytes) (key : Option Bytes) (method : Bytes) (verb : Verb)
      (ignore : Bool) (extra : Option (Bytes × Bytes)) (xs : List Resource)
      → Appends os
      → Kept xs (client_request os cfg bucket key method verb ignore extra)
  unfolding client_request client_headers live sound
  client_request_lem cfg bucket key method verb ignore extra xs appends =
      bind (ask_lem os.time) λ now.
        bind (outcome_lem (sign_request os cfg method bucket key now)) λ s.
          bind
            (headers_lem os {P' = Holds (slist 0 ∷ xs)} (client_headers s) refl appends
              (λ t h. ground arith))
            λ hs. known λ e. bind (ask_lem os.easy_init) λ handle.
              bind (note_handle_lem handle (slist 0 ∷ xs)) λ _.
                bind (more_headers_lem os hs (added_header extra) (ap header_list e) appends) λ all.
                  known λ d.
                    performed_lem handle (hs ++ added_header extra)
                      (record {
                        url = client_url cfg bucket key;
                        headers = all;
                        verb = verb;
                        ignore_content_length = ignore;
                      })
                      xs (ap (λ ys. header_list (ys ++ added_header extra)) e) d

  pub s3_head_object_lem :
      (cfg : Config) (bucket key : Bytes) (xs : List Resource)
      → Appends os
      → Kept xs (s3_head_object os cfg bucket key)
  unfolding s3_head_object
  s3_head_object_lem cfg bucket key xs appends =
      bind (client_request_lem cfg bucket (some key) (codes "HEAD") head false none xs appends) λ r.
        when_lem (r.done && (r.status == 200)) (pure_lem (header_lines r.lines (negsuc 0)))
          (fail_lem request_failed)

  pub s3_get_object_lem :
      (cfg : Config) (bucket key : Bytes) (extra : Option (Bytes × Bytes)) (xs : List Resource)
      → Appends os
      → Kept xs (s3_get_object os cfg bucket key extra)
  unfolding s3_get_object
  s3_get_object_lem cfg bucket key extra xs appends =
      bind (client_request_lem cfg bucket (some key) (codes "GET") get true extra xs appends)
        λ r. when_lem (r.done && (r.status == 200)) (pure_lem tt) (fail_lem request_failed)

  pub s3_put_object_lem :
      (cfg : Config) (bucket key : Bytes) (extra : Option (Bytes × Bytes)) (xs : List Resource)
      → Appends os
      → Kept xs (s3_put_object os cfg bucket key extra)
  unfolding s3_put_object
  s3_put_object_lem cfg bucket key extra xs appends =
      bind (client_request_lem cfg bucket (some key) (codes "PUT") put false extra xs appends) λ r.
        when_lem (r.done && ((r.status == 200) || (r.status == 201))) (pure_lem tt)
          (fail_lem request_failed)
