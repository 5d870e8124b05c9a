-- ===== src/Transfer.antt =====
-- The clients of examples/rdma/c that move a whole object: s3rdmaput.c and s3rdmaget.c, which read the
-- same options. This file has what they share; `main` of each is in a file of its own.
pub mod Put
pub mod Get
use storefs.Prelude.{Option, none, some, List, [], ◌∷◌, ◌++◌, if◌then◌else◌}
use storefs.Prelude.Int.{pos}
use storefs.Prelude.Text.{Bytes, codes, same_text, printed}
use storefs.Prelude.Decimal.{signed_decimal}
use storefs.Os.{Os}
use storefs.Sign.{Config}

-- The variables at the top of `main`; `none` is NULL.
pub record Args : Type 0 where
  pub bucket : Option Bytes
  pub object : Option Bytes
  pub file_path : Option Bytes
  pub endpoint : Bytes
  pub rdma_dev : Bytes
  pub ak : Bytes
  pub sk : Bytes

abbrev pub default_args : Args
default_args = record {
  bucket = none;
  object = none;
  file_path = none;
  endpoint = codes "http://127.0.0.1:8901";
  rdma_dev = codes "rxe0";
  ak = codes "admin-ak";
  sk = codes "admin-sk";
}

unfoldable pub set_arg : (flag value : Bytes) → Args → Option Args
set_arg flag value a =
    if same_text flag (codes "-bucket")
    then some (record a { bucket = some value })
    else if same_text flag (codes "-object")
    then some (record a { object = some value })
    else if same_text flag (codes "-file")
    then some (record a { file_path = some value })
    else if same_text flag (codes "-endpoint")
    then some (record a { endpoint = value })
    else if same_text flag (codes "-rdma-dev")
    then some (record a { rdma_dev = value })
    else if same_text flag (codes "-ak")
    then some (record a { ak = value })
    else if same_text flag (codes "-sk")
    then some (record a { sk = value })
    else none

-- The loop over the arguments; `none` is where it calls `usage`, which ends the program.
unfoldable pub read_args : List Bytes → Args → Option Args
unfolding set_arg
read_args [] a = some a
read_args (flag ∷ []) a = none
read_args (flag ∷ value ∷ rest) a = elim (set_arg flag value a) [
  | none ↦ none
  | some b ↦ read_args rest b
]

-- What a transfer works with, once all three are there.
pub record Target : Type 0 where
  pub cfg : Config
  pub bucket : Bytes
  pub object : Bytes
  pub file_path : Bytes
  pub rdma_dev : Bytes

-- `if (!bucket || !object || !filePath) usage(argv[0])`, and `cfg`
unfoldable pub target_of : Args → Option Target
target_of a = elim a.bucket [
  | none ↦ none
  | some bucket ↦ elim a.object [
    | none ↦ none
    | some object ↦ elim a.file_path [
      | none ↦ none
      | some file_path ↦ some (record {
        cfg = record {
          endpoint = a.endpoint;
          region = codes "us-east-1";
          access_key = a.ak;
          secret_key = a.sk;
        };
        bucket = bucket;
        object = object;
        file_path = file_path;
        rdma_dev = a.rdma_dev;
      })
    ]
  ]
]

-- `requestID`
abbrev pub transfer_id : Os → Bytes
transfer_id os = printed 64 (codes "rdma-" ++ signed_decimal (pos os.getpid))
