-- ===== src/Multipart/Main.antt =====
-- `main` of examples/rdma/c/s3rdmamultipart.c: what each action does. It ends with status 0 where
-- the model gives `ok`, and with 1 where it fails.
pub mod Leaks
pub mod Order
use storefs.Prelude.{Option, none, some, List, [], ◌∷◌, if◌then◌else◌}
use storefs.Prelude.Text.{Bytes, codes, same_text}
use storefs.Os.{
  block, released, Os, Error, usage_shown, no_parts, Result, ok, err, Cmd, pure, fail, emit,
  or_else, attempt, outcome, ◌>>=◌, ◌>>◌,
}
use storefs.Sign.{Config, key_text}
use storefs.Multipart.Xml.{CompletedPart}
use storefs.Multipart.Options.{Options, parse_args}
use storefs.Multipart.Store.{Listed}
use storefs.Multipart.Requests.{
  s3_create_multipart, s3_list_parts, s3_complete_multipart, s3_abort_multipart, s3_list_uploads,
}
use storefs.Multipart.Upload.{upload_parts_rdma}

-- `cfg`
abbrev pub config_of : Options → Config
config_of o = record {
  endpoint = o.endpoint;
  region = codes "us-east-1";
  access_key = o.ak;
  secret_key = o.sk;
}

-- The value of an option that the action needs.
abbrev pub needed : {A : Type 0} → Option Bytes → (Bytes → Cmd A) → Cmd A
needed none k = fail usage_shown
needed (some value) k = k value

module _ (os : Os) (o : Options) where
  -- `free(parts)`, whatever came of what used them.
  abbrev pub with_parts : Listed → (List CompletedPart → Cmd (Unit {0})) → Cmd (Unit {0})
  with_parts l k = do r ← attempt (k l.parts); emit (released (block l.store)); outcome r

  abbrev pub complete : Bytes → List CompletedPart → Cmd (Unit {0})
  complete upload_id parts =
      s3_complete_multipart os (config_of o) (key_text o.bucket) o.object upload_id parts

  -- `if (count == 0)`
  abbrev pub complete_some : Bytes → List CompletedPart → Cmd (Unit {0})
  complete_some upload_id [] = fail no_parts
  complete_some upload_id (p ∷ ps) = complete upload_id (p ∷ ps)

  unfoldable pub create_action : Cmd (Unit {0})
  create_action =
      s3_create_multipart os (config_of o) (key_text o.bucket) o.object 256 >>= λ upload_id. pure tt

  unfoldable pub upload_action : Cmd (Unit {0})
  upload_action = needed o.file_path λ path. needed o.upload_id λ upload_id. do
    l ← upload_parts_rdma os (config_of o) o upload_id
    with_parts l (λ parts. pure tt)

  unfoldable pub list_action : Cmd (Unit {0})
  list_action = needed o.upload_id λ upload_id. do
    l ← s3_list_parts os (config_of o) (key_text o.bucket) o.object upload_id
    with_parts l (λ parts. pure tt)

  unfoldable pub list_uploads_action : Cmd (Unit {0})
  list_uploads_action =
      s3_list_uploads os (config_of o) (key_text o.bucket) none o.delimiter o.key_marker
        o.max_uploads o.prefix o.upload_id_marker
      >>= λ text. pure tt

  unfoldable pub complete_action : Cmd (Unit {0})
  complete_action = needed o.upload_id λ upload_id. do
    l ← s3_list_parts os (config_of o) (key_text o.bucket) o.object upload_id
    with_parts l (complete_some upload_id)

  unfoldable pub abort_action : Cmd (Unit {0})
  abort_action =
      needed o.upload_id
        λ upload_id. s3_abort_multipart os (config_of o) (key_text o.bucket) o.object upload_id

  -- An upload that fails is aborted, whether the abort succeeds or not.
  unfoldable pub upload_or_abort : Bytes → Cmd Listed
  upload_or_abort upload_id = or_else (upload_parts_rdma os (config_of o) o upload_id) (
      attempt (s3_abort_multipart os (config_of o) (key_text o.bucket) o.object upload_id) >>= λ r.
      pure tt)

  unfoldable pub all_steps : Cmd (Unit {0})
  unfolding upload_or_abort
  all_steps = do
    upload_id ← s3_create_multipart os (config_of o) (key_text o.bucket) o.object 256
    l ← upload_or_abort upload_id
    with_parts l (complete upload_id)

  unfoldable pub all_action : Cmd (Unit {0})
  unfolding all_steps
  all_action = needed o.file_path (λ path. all_steps)

  -- What `main` does behind `parse_args`.
  unfoldable pub run_action : Cmd (Unit {0})
  unfolding create_action upload_action list_action list_uploads_action complete_action abort_action
      all_action
  run_action =
      if same_text o.action (codes "create")
      then create_action
      else if same_text o.action (codes "upload")
      then upload_action
      else if same_text o.action (codes "list")
      then list_action
      else if same_text o.action (codes "list-uploads")
      then list_uploads_action
      else if same_text o.action (codes "complete")
      then complete_action
      else if same_text o.action (codes "abort")
      then abort_action
      else if same_text o.action (codes "all")
      then all_action
      else fail usage_shown

unfoldable pub main : Os → List Bytes → Cmd (Unit {0})
unfolding parse_args run_action
main os argv = elim (parse_args argv) [ none ↦ fail usage_shown | some o ↦ run_action os o ]
