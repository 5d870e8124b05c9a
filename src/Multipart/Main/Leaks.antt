-- ===== src/Multipart/Main/Leaks.antt =====
-- What the multipart client holds when it ends.
use storefs.Prelude.{Bool, true, false, Option, none, some, List, [], ◌∷◌, if◌then◌else◌}
use storefs.Prelude.Text.{Bytes, codes, same_text}
use storefs.Os.{Resource, block, Os, usage_shown, no_parts, Trace, Cmd, pure, fail}
use storefs.Os.Live.{Holds, Triple, bind}
use storefs.Os.Rules.{
  Kept, release_lem, pure_lem, fail_lem, finally_lem, or_else_lem, ended, attempted_lem,
}
use storefs.Headers.Whole.{Appends}
use storefs.Verbs.Leaks.{HasDevice}
use storefs.Sign.{key_text}
use storefs.Multipart.Options.{Options, parse_args}
use storefs.Multipart.Xml.{CompletedPart}
use storefs.Multipart.Store.{Listed}
use storefs.Multipart.Requests.Leaks.{
  s3_create_multipart_lem, s3_abort_multipart_lem, s3_complete_multipart_lem, s3_list_parts_lem,
  s3_list_uploads_lem,
}
use storefs.Multipart.Upload.Leaks.{upload_parts_rdma_lem}
use storefs.Multipart.Main.{
  config_of, needed, with_parts, complete, complete_some, create_action, upload_action, list_action,
  list_uploads_action, complete_action, abort_action, upload_or_abort, all_action, all_steps,
  run_action, main,
}

needed_lem :
    {xs : List Resource} (value : Option Bytes) (k : Bytes → Cmd (Unit {0}))
    → ((s : Bytes) → Kept xs (k s))
    → Kept xs (needed value k)
needed_lem none k h = fail_lem usage_shown
needed_lem (some s) k h = h s

choice_lem :
    {xs : List Resource} {m n : Cmd (Unit {0})} (b : Bool)
    → Kept xs m
    → Kept xs n
    → Kept xs (if b then m else n)
choice_lem true hm hn = hm
choice_lem false hm hn = hn

module _ (os : Os) (o : Options) (some_device : HasDevice os) (appends : Appends os)
    (xs : List Resource) where
  with_parts_lem :
      (l : Listed) (k : List CompletedPart → Cmd (Unit {0}))
      → Kept (block l.store ∷ xs) (k l.parts)
      → Triple (Holds (block l.store ∷ xs)) (with_parts os o l k) (λ _. Holds xs) (Holds xs)
  with_parts_lem l k h =
      finally_lem h (λ _. release_lem (block l.store) xs) (release_lem (block l.store) xs)

  complete_some_lem :
      (upload_id : Bytes) (parts : List CompletedPart) (ys : List Resource)
      → Kept ys (complete_some os o upload_id parts)
  complete_some_lem upload_id [] ys = fail_lem no_parts
  complete_some_lem upload_id (p ∷ ps) ys =
      s3_complete_multipart_lem os (config_of o) (key_text o.bucket) o.object appends upload_id
        (p ∷ ps) ys

  create_action_lem : Kept xs (create_action os o)
  unfolding create_action
  create_action_lem =
      bind (s3_create_multipart_lem os (config_of o) (key_text o.bucket) o.object appends 256 xs)
        λ upload_id. pure_lem tt

  upload_action_lem : Kept xs (upload_action os o)
  unfolding upload_action
  upload_action_lem = needed_lem o.file_path _ λ path. needed_lem o.upload_id _ λ upload_id.
      bind (upload_parts_rdma_lem os (config_of o) o some_device appends upload_id xs)
        λ l. with_parts_lem l (λ parts. pure tt) (pure_lem tt)

  list_action_lem : Kept xs (list_action os o)
  unfolding list_action
  list_action_lem = needed_lem o.upload_id _ λ upload_id.
      bind (s3_list_parts_lem os (config_of o) (key_text o.bucket) o.object appends upload_id xs)
        λ l. with_parts_lem l (λ parts. pure tt) (pure_lem tt)

  list_uploads_action_lem : Kept xs (list_uploads_action os o)
  unfolding list_uploads_action
  list_uploads_action_lem =
      bind
        (s3_list_uploads_lem os (config_of o) (key_text o.bucket) none appends o.delimiter
          o.key_marker o.max_uploads o.prefix o.upload_id_marker xs)
        λ text. pure_lem tt

  complete_action_lem : Kept xs (complete_action os o)
  unfolding complete_action
  complete_action_lem = needed_lem o.upload_id _ λ upload_id.
      bind (s3_list_parts_lem os (config_of o) (key_text o.bucket) o.object appends upload_id xs)
        λ l.
          with_parts_lem l (complete_some os o upload_id)
            (complete_some_lem upload_id l.parts (block l.store ∷ xs))

  abort_action_lem : Kept xs (abort_action os o)
  unfolding abort_action
  abort_action_lem = needed_lem o.upload_id _ λ upload_id.
      s3_abort_multipart_lem os (config_of o) (key_text o.bucket) o.object appends upload_id xs

  upload_or_abort_lem :
      (upload_id : Bytes)
      → Triple
          (Holds xs)
          (upload_or_abort os o upload_id)
          (λ l. Holds (block l.store ∷ xs))
          (Holds xs)
  unfolding upload_or_abort
  upload_or_abort_lem upload_id =
      or_else_lem (upload_parts_rdma_lem os (config_of o) o some_device appends upload_id xs) (
        bind
          (attempted_lem (
            s3_abort_multipart_lem os (config_of o) (key_text o.bucket) o.object appends upload_id
              xs))
          λ r. pure_lem tt)

  all_action_lem : Kept xs (all_action os o)
  unfolding all_action all_steps
  all_action_lem = needed_lem o.file_path _ λ path.
      bind (s3_create_multipart_lem os (config_of o) (key_text o.bucket) o.object appends 256 xs)
        λ upload_id. bind (upload_or_abort_lem upload_id) λ l.
          with_parts_lem l (complete os o upload_id) (
            s3_complete_multipart_lem os (config_of o) (key_text o.bucket) o.object appends
              upload_id l.parts (block l.store ∷ xs))

  run_action_lem : Kept xs (run_action os o)
  unfolding run_action
  run_action_lem = choice_lem (same_text o.action (codes "create")) create_action_lem (
      choice_lem (same_text o.action (codes "upload")) upload_action_lem (
        choice_lem (same_text o.action (codes "list")) list_action_lem (
          choice_lem (same_text o.action (codes "list-uploads")) list_uploads_action_lem (
            choice_lem (same_text o.action (codes "complete")) complete_action_lem (
              choice_lem (same_text o.action (codes "abort")) abort_action_lem (
                choice_lem (same_text o.action (codes "all")) all_action_lem
                  (fail_lem usage_shown)))))))

-- The multipart client ends with what was held before, for each of its actions and whatever fails
-- but `curl_slist_append`: all files, mappings, blocks, lists of headers, libcurl handles and objects
-- of a session are given back, and nothing twice. Where there is a list of devices, there is a device
-- in it, and libcurl has memory for each header.
pub main-Holds :
    (os : Os) (argv : List Bytes) (xs : List Resource) (t : Trace)
    → HasDevice os
    → Appends os
    → Holds xs t
    → Holds xs (main os argv t).1
unfolding main
main-Holds os argv xs t some_device appends h = ended ((parsed (parse_args argv)).run t h)
  where
    parsed :
        (p : Option Options)
        → Kept {A = Unit {0}} xs (elim p [ none ↦ fail usage_shown | some o ↦ run_action os o ])
    parsed none = fail_lem usage_shown
    parsed (some o) = run_action_lem os o some_device appends xs
