-- ===== src/Multipart/Options.antt =====
-- The command line of examples/rdma/c/s3rdmamultipart.c.
pub mod RoundTrip
use storefs.Prelude.{
  zero, suc, ◌*◌, Bool, true, false, not, ◌&&◌, Option, none, some, List, [], ◌∷◌, if◌then◌else◌,
}
use storefs.Prelude.Int.{ℤ, pos, negsuc}
use storefs.Prelude.Text.{Bytes, codes, same_text}
use storefs.Prelude.Decimal.{atoi, atoll}

-- `options_t`; `none` is NULL.
pub record Options : Type 0 where
  pub action : Bytes
  pub bucket : Option Bytes
  pub object : Option Bytes
  pub file_path : Option Bytes
  pub upload_id : Option Bytes
  pub endpoint : Bytes
  pub rdma_dev : Bytes
  pub ak : Bytes
  pub sk : Bytes
  pub prefix : Option Bytes
  pub delimiter : Option Bytes
  pub key_marker : Option Bytes
  pub upload_id_marker : Option Bytes
  pub part_size : ℤ
  pub max_uploads : ℤ
  pub part : ℤ

-- `init_options`
abbrev pub init_options : Options
init_options = record {
  action = codes "all";
  bucket = none;
  object = none;
  file_path = none;
  upload_id = none;
  endpoint = codes "http://127.0.0.1:8901";
  rdma_dev = codes "rxe0";
  ak = codes "admin-ak";
  sk = codes "admin-sk";
  prefix = none;
  delimiter = none;
  key_marker = none;
  upload_id_marker = none;
  part_size = pos (5 * 1024 * 1024);
  max_uploads = pos 1000;
  part = pos 0;
}

-- One option with its value; `none` where there is no such option.
unfoldable pub set_option : (flag value : Bytes) → Options → Option Options
set_option flag value o =
    if same_text flag (codes "-action")
    then some (record o { action = value })
    else if same_text flag (codes "-bucket")
    then some (record o { bucket = some value })
    else if same_text flag (codes "-object")
    then some (record o { object = some value })
    else if same_text flag (codes "-file")
    then some (record o { file_path = some value })
    else if same_text flag (codes "-uploadid")
    then some (record o { upload_id = some value })
    else if same_text flag (codes "-part")
    then some (record o { part = atoi value })
    else if same_text flag (codes "-partsize")
    then some (record o { part_size = atoll value })
    else if same_text flag (codes "-endpoint")
    then some (record o { endpoint = value })
    else if same_text flag (codes "-rdma-dev")
    then some (record o { rdma_dev = value })
    else if same_text flag (codes "-ak")
    then some (record o { ak = value })
    else if same_text flag (codes "-sk")
    then some (record o { sk = value })
    else if same_text flag (codes "-prefix")
    then some (record o { prefix = some value })
    else if same_text flag (codes "-delimiter")
    then some (record o { delimiter = some value })
    else if same_text flag (codes "-max-uploads")
    then some (record o { max_uploads = atoll value })
    else if same_text flag (codes "-key-marker")
    then some (record o { key_marker = some value })
    else if same_text flag (codes "-upload-id-marker")
    then some (record o { upload_id_marker = some value })
    else none

-- The loop over the arguments; an option without a value is none.
unfoldable pub parse_loop : List Bytes → Options → Option Options
unfolding set_option
parse_loop [] o = some o
parse_loop (flag ∷ []) o = none
parse_loop (flag ∷ value ∷ rest) o = elim (set_option flag value o) [
  | none ↦ none
  | some o' ↦ parse_loop rest o'
]

-- `part_size <= 0`
abbrev not_positive : ℤ → Bool
not_positive (pos zero) = true
not_positive (pos (suc n)) = false
not_positive (negsuc n) = true

abbrev missing : Option Bytes → Bool
missing none = true
missing (some s) = false

-- What the checks behind the loop let through; `none` ends the program with status 1.
unfoldable pub check_options : Options → Option Options
check_options o =
    if missing o.bucket
    then none
    else if not (same_text o.action (codes "list-uploads")) && missing o.object
    then none
    else if not_positive o.part_size
    then none
    else some o

-- `parse_args`, of the arguments behind the program's name
unfoldable pub parse_args : List Bytes → Option Options
unfolding parse_loop check_options
parse_args argv = elim (parse_loop argv init_options) [ none ↦ none | some o ↦ check_options o ]
