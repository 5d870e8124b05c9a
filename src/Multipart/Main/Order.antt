-- ===== src/Multipart/Main/Order.antt =====
-- Which request the action `all` of the multipart client ends with.
use storefs.Prelude.{ℕ, ◌≡◌, ◌+◌, ◌*◌, refl, Option, none, some, List, ◌∷◌, length}
use storefs.Prelude.Int.{pos, negsuc}
use storefs.Prelude.Text.{Bytes, codes}
use storefs.Os.{block, acquired, Trace, Os, Error, Result, ok, err, Cmd, outcome, ◌>>◌}
use storefs.Os.Live.{Outcome, good, bad, bind, after}
use storefs.Os.Rules.{outcome_lem, ended}
use storefs.Sign.{Config, Signed, key_text}
use storefs.Headers.Whole.{Appends}
use storefs.Multipart.Sign as Multi
use storefs.Http.{signed_length, free_body}
use storefs.Http.Success.{request_of}
use storefs.Http.Last.{last_request, Last, Inits, free_body-Last, s3_request-Last}
use storefs.Multipart.Options.{Options}
use storefs.Multipart.Xml.{CompletedPart, complete_body}
use storefs.Multipart.Store.{Listed}
use storefs.Multipart.Requests.{
  answered, upload_query, exchange, s3_create_multipart, s3_abort_multipart, s3_complete_multipart,
}
use storefs.Multipart.Upload.{upload_parts_rdma}
use storefs.Multipart.Main.{config_of, needed, upload_or_abort, all_steps, all_action}

never_bad :
    {S A : Type 0} {Q : A → S → Type 0} {E : S → Type 0} {p : Result A × S}
    → Outcome Q (λ _. ⊥) p
    → Outcome Q E p
never_bad (good h) = good h
never_bad (bad h) = absurd h

module _ (os : Os) (cfg : Config) (bucket : Bytes) (object : Option Bytes) where
  exchange-Last :
      {A : Type 0} (method query : Bytes) (body : Option Bytes) (f : Bytes → Result A) (t : Trace)
      (s : Signed)
      → Appends os
      → Inits os
      → Multi.sign_request os cfg method bucket object (some query) (signed_length body) (os.time t)
        ≡ ok s
      → Last
          (request_of cfg method bucket object (some query) body none s)
          (exchange os cfg bucket object method query body none f t).1
  unfolding exchange
  exchange-Last {A} method query body f t s appends inits e =
      let r = request_of cfg method bucket object (some query) body none s in
      ended (
        after {R = λ _. Last r} {E = Last r} (λ a. free_body a.body >> outcome (answered a f))
          (never_bad (
            s3_request-Last os cfg method bucket object (some query) body none t s appends inits e))
          (λ a. bind (free_body-Last a.body r) λ _. outcome_lem (answered a f)))

complete-Last :
    (os : Os) (cfg : Config) (bucket : Bytes) (object : Option Bytes) (upload_id : Bytes)
    (parts : List CompletedPart) (b : ℕ) (t : Trace) (s : Signed)
    → Appends os
    → Inits os
    → os.malloc t (256 + length parts * 384) ≡ some b
    → Multi.sign_request os cfg
        (codes "POST")
        bucket
        object
        (some (upload_query upload_id))
        (pos (length (complete_body parts)))
        (os.time (acquired (block b) ∷ t))
      ≡ ok s
    → Last
        (request_of cfg
          (codes "POST")
          bucket
          object
          (some (upload_query upload_id))
          (some (complete_body parts))
          none
          s)
        (s3_complete_multipart os cfg bucket object upload_id parts t).1
unfolding s3_complete_multipart last_request
complete-Last os cfg bucket object upload_id parts b t s appends inits room signed =
    rw (s3_complete_multipart, room)
      (exchange-Last os cfg bucket object (codes "POST") (upload_query upload_id)
        (some (complete_body parts)) (λ xml. ok tt) (acquired (block b) ∷ t) s appends inits signed)

needed-some :
    (value : Option Bytes) (path : Bytes) (k : Cmd (Unit {0})) (t : Trace)
    → value ≡ some path
    → needed value (λ path. k) t ≡ k t
needed-some value path k t e = rw e refl

module _ (os : Os) (o : Options) where
  steps_lost :
      (upload_id : Bytes) (e : Error) (t t1 t2 : Trace) (s : Signed)
      → Appends os
      → Inits os
      → s3_create_multipart os (config_of o) (key_text o.bucket) o.object 256 t ≡ (ok upload_id, t1)
      → upload_parts_rdma os (config_of o) o upload_id t1 ≡ (err e, t2)
      → Multi.sign_request os
          (config_of o)
          (codes "DELETE")
          (key_text o.bucket)
          o.object
          (some (upload_query upload_id))
          (negsuc 0)
          (os.time t2)
        ≡ ok s
      → ((all_steps os o t).0 ≡ err e)
        × (last_request (all_steps os o t).1
            ≡ some (
                request_of
                  (config_of o)
                  (codes "DELETE")
                  (key_text o.bucket)
                  o.object
                  (some (upload_query upload_id))
                  none
                  none
                  s))
  unfolding all_steps upload_or_abort s3_abort_multipart
  steps_lost upload_id e t t1 t2 s appends inits created lost signed =
      rw (all_steps, created, upload_or_abort, lost)
        (
          refl,
          exchange-Last os (config_of o) (key_text o.bucket) o.object (codes "DELETE")
              (upload_query upload_id) none (λ xml. ok tt) t2 s appends inits signed,
        )

  steps_done :
      (upload_id : Bytes) (l : Listed) (b : ℕ) (t t1 t2 : Trace) (s : Signed)
      → Appends os
      → Inits os
      → s3_create_multipart os (config_of o) (key_text o.bucket) o.object 256 t ≡ (ok upload_id, t1)
      → upload_parts_rdma os (config_of o) o upload_id t1 ≡ (ok l, t2)
      → os.malloc t2 (256 + length l.parts * 384) ≡ some b
      → Multi.sign_request os
          (config_of o)
          (codes "POST")
          (key_text o.bucket)
          o.object
          (some (upload_query upload_id))
          (pos (length (complete_body l.parts)))
          (os.time (acquired (block b) ∷ t2))
        ≡ ok s
      → ((all_steps os o t).0
          ≡ (s3_complete_multipart os
              (config_of o)
              (key_text o.bucket)
              o.object
              upload_id
              l.parts
              t2).0)
        × (last_request (all_steps os o t).1
            ≡ some (
                request_of
                  (config_of o)
                  (codes "POST")
                  (key_text o.bucket)
                  o.object
                  (some (upload_query upload_id))
                  (some (complete_body l.parts))
                  none
                  s))
  unfolding all_steps upload_or_abort last_request
  steps_done upload_id l b t t1 t2 s appends inits created sent room signed =
      rw (all_steps, created, upload_or_abort, sent)
        (
          refl,
          complete-Last os (config_of o) (key_text o.bucket) o.object upload_id l.parts b t2 s
              appends inits room signed,
        )

  -- An action `all` whose upload fails reports the failure of the upload, and the last request that it
  -- makes is the one that aborts the upload that it created: for a file that is named, an abort that
  -- can be signed, and a libcurl that
  -- gives handles and has memory for each header.
  pub all_action-s3_abort_multipart :
      (path upload_id : Bytes) (e : Error) (t t1 t2 : Trace) (s : Signed)
      → Appends os
      → Inits os
      → o.file_path ≡ some path
      → s3_create_multipart os (config_of o) (key_text o.bucket) o.object 256 t ≡ (ok upload_id, t1)
      → upload_parts_rdma os (config_of o) o upload_id t1 ≡ (err e, t2)
      → Multi.sign_request os
          (config_of o)
          (codes "DELETE")
          (key_text o.bucket)
          o.object
          (some (upload_query upload_id))
          (negsuc 0)
          (os.time t2)
        ≡ ok s
      → ((all_action os o t).0 ≡ err e)
        × (last_request (all_action os o t).1
            ≡ some (
                request_of
                  (config_of o)
                  (codes "DELETE")
                  (key_text o.bucket)
                  o.object
                  (some (upload_query upload_id))
                  none
                  none
                  s))
  unfolding all_action
  all_action-s3_abort_multipart path upload_id e t t1 t2 s appends inits named created lost signed =
      rw (all_action, needed-some o.file_path path (all_steps os o) t named)
        (steps_lost upload_id e t t1 t2 s appends inits created lost signed)

  -- An action `all` whose upload succeeds ends with what the completion of the upload returns, and the
  -- last request that it makes is that completion, of the upload that it created and with the parts that
  -- the upload returned: for a file that is named, memory for the body, a completion that can be signed,
  -- and a libcurl that
  -- gives handles and has memory for each header.
  pub all_action-s3_complete_multipart :
      (path upload_id : Bytes) (l : Listed) (b : ℕ) (t t1 t2 : Trace) (s : Signed)
      → Appends os
      → Inits os
      → o.file_path ≡ some path
      → s3_create_multipart os (config_of o) (key_text o.bucket) o.object 256 t ≡ (ok upload_id, t1)
      → upload_parts_rdma os (config_of o) o upload_id t1 ≡ (ok l, t2)
      → os.malloc t2 (256 + length l.parts * 384) ≡ some b
      → Multi.sign_request os
          (config_of o)
          (codes "POST")
          (key_text o.bucket)
          o.object
          (some (upload_query upload_id))
          (pos (length (complete_body l.parts)))
          (os.time (acquired (block b) ∷ t2))
        ≡ ok s
      → ((all_action os o t).0
          ≡ (s3_complete_multipart os
              (config_of o)
              (key_text o.bucket)
              o.object
              upload_id
              l.parts
              t2).0)
        × (last_request (all_action os o t).1
            ≡ some (
                request_of
                  (config_of o)
                  (codes "POST")
                  (key_text o.bucket)
                  o.object
                  (some (upload_query upload_id))
                  (some (complete_body l.parts))
                  none
                  s))
  unfolding all_action
  all_action-s3_complete_multipart path upload_id l b t t1 t2 s appends inits named created sent
        room signed =
      rw (all_action, needed-some o.file_path path (all_steps os o) t named)
        (steps_done upload_id l b t t1 t2 s appends inits created sent room signed)
