-- ===== src/Os.antt =====
-- What the C clients ask of the system: sockets, memory, files, libibverbs and libcurl. None of it
-- is code of the repository, so an `Os` is a parameter: a function for each call, whose answer may
-- depend on all that happened before (the trace) and on the call's arguments. A program is a
-- function of the trace, and puts what it does in front of it.
pub mod Live
pub mod Rules
pub mod States
use storefs.Prelude.{ℕ, List, [], ◌∷◌, ◌++◌, Bool, Option, none, some, if◌then◌else◌}
use storefs.Prelude.Int.{ℤ}
use storefs.Prelude.Text.{Bytes}

-- What a program holds and must give back: a `FILE`, an address list, a socket, a heap block, a
-- libcurl handle, a list of headers, a
-- mapping, a session's block, a device list, and the objects of libibverbs.
pub data Resource : Type 0 where
  file : ℕ → Resource
  addresses : ℕ → Resource
  socket : ℕ → Resource
  block : ℕ → Resource
  mapping : ℕ → Resource
  devices : ℕ → Resource
  session : ℕ → Resource
  ctx : ℕ → Resource
  pd : ℕ → Resource
  cq : ℕ → Resource
  qp : ℕ → Resource
  mr : ℕ → Resource
  easy : ℕ → Resource
  slist : ℕ → Resource

-- The access rights of a queue pair or a memory region, and the fields that `ibv_modify_qp` is told
-- to read; a set of flags is the list of them.
pub data Access : Type 0 where
  local_write remote_read remote_write : Access

pub data QpField : Type 0 where
  state pkey_index port access_flags av path_mtu dest_qpn rq_psn : QpField
  max_dest_rd_atomic min_rnr_timer timeout retry_cnt rnr_retry sq_psn max_qp_rd_atomic : QpField

-- The values of `enum ibv_mtu`.
pub record Mtu : Type 0 where
  pub mtu_256 : ℕ
  pub mtu_512 : ℕ
  pub mtu_1024 : ℕ
  pub mtu_2048 : ℕ
  pub mtu_4096 : ℕ

pub data QpState : Type 0 where
  reset init rtr rts : QpState

-- `struct ibv_qp_attr`, as far as the program sets it. What the state at hand does not use is 0.
pub record QpAttr : Type 0 where
  pub qp_state : QpState
  pub pkey_index : ℕ
  pub port_num : ℕ
  pub qp_access_flags : List Access
  pub path_mtu : ℤ
  pub dest_qp_num : ℕ
  pub rq_psn : ℕ
  pub max_dest_rd_atomic : ℕ
  pub min_rnr_timer : ℕ
  pub is_global : ℕ
  pub dlid : ℕ
  pub sl : ℕ
  pub ah_port_num : ℕ
  pub sgid_index : ℕ
  pub hop_limit : ℕ
  pub traffic_class : ℕ
  pub flow_label : ℕ
  pub dgid : Bytes
  pub timeout : ℕ
  pub retry_cnt : ℕ
  pub rnr_retry : ℕ
  pub sq_psn : ℕ
  pub max_rd_atomic : ℕ

-- `struct tm`, as far as `strftime` reads it here; the year is the full one.
pub record Tm : Type 0 where
  pub year : ℕ
  pub month : ℕ
  pub day : ℕ
  pub hour : ℕ
  pub minute : ℕ
  pub second : ℕ

-- `struct ibv_qp_init_attr` of a queue pair of the type IBV_QPT_RC, with one completion queue for
-- both directions.
pub record QpInitAttr : Type 0 where
  pub cq : ℕ
  pub max_send_wr : ℕ
  pub max_recv_wr : ℕ
  pub max_send_sge : ℕ
  pub max_recv_sge : ℕ
  pub max_inline_data : ℕ
  pub sq_sig_all : ℕ

-- What the options of a libcurl handle make of the request: CURLOPT_HTTPGET, POSTFIELDS with
-- CUSTOMREQUEST "POST", UPLOAD of nothing, CUSTOMREQUEST "DELETE", or NOBODY.
pub data Verb : Type 0 where
  get : Verb
  post : Bytes → Verb
  put : Verb
  delete : Verb
  head : Verb

pub record Request : Type 0 where
  pub url : Bytes
  pub headers : List Bytes
  pub verb : Verb
  pub ignore_content_length : Bool

-- What a transfer brings: whether libcurl saw no failure, the status (0 if there was none), the lines
-- of the headers and the chunks of the body.
pub record Response : Type 0 where
  pub done : Bool
  pub status : ℕ
  pub lines : List Bytes
  pub chunks : List Bytes

pub data Event : Type 0 where
  acquired : Resource → Event
  released : Resource → Event
  sent : ℕ → Bytes → Event
  received : ℕ → Bytes → Event
  drew : ℕ → Event
  modified : ℕ → QpAttr → List QpField → Event
  registered : ℕ → List Access → Event
  requested : Request → Event
  -- The bytes of a file that were read into a mapping, and bytes that `fwrite` took for a file.
  loaded : ℕ → Bytes → Event
  saved : ℕ → Bytes → Event
  failed : Event

-- The latest event first.
abbrev pub Trace : Type 0
Trace = List Event

pub record Os : Type 0 where
  -- The addresses of a host and a port, in the order that `getaddrinfo` gives; `none` if it fails.
  pub getaddrinfo : Trace → Bytes → Bytes → Option (List ℕ)
  pub socket : Trace → ℕ → Option ℕ
  pub connect : Trace → ℕ → ℕ → Bool
  -- `none` is an error, `some []` the end of the stream.
  pub read : Trace → ℕ → ℕ → Option Bytes
  -- How many bytes were taken; `none` is an error.
  pub write : Trace → ℕ → Bytes → Option ℕ
  pub rand : Trace → ℕ
  pub malloc : Trace → ℕ → Option ℕ
  -- The names of the devices.
  pub get_device_list : Trace → Option (List Bytes)
  pub open_device : Trace → ℕ → Option ℕ
  pub alloc_pd : Trace → ℕ → Option ℕ
  pub create_cq : Trace → ℕ → ℕ → Option ℕ
  pub create_qp : Trace → ℕ → QpInitAttr → Option ℕ
  -- 0 is success, as in the three that follow.
  pub modify_qp : Trace → ℕ → QpAttr → List QpField → ℕ
  pub query_port : Trace → ℕ → ℕ → Option ℕ
  pub query_gid : Trace → ℕ → ℕ → ℕ → Option Bytes
  pub mtu : Mtu
  pub qp_num : ℕ → ℕ
  pub reg_mr : Trace → ℕ → ℕ → ℕ → List Access → Option ℕ
  pub rkey : ℕ → ℕ
  -- The clock, the calendar and the number of the process.
  pub time : Trace → ℕ
  pub gmtime : ℕ → Tm
  pub getpid : ℕ
  -- SHA256 and HMAC with EVP_sha256 of OpenSSL.
  pub sha256 : Bytes → Bytes
  pub hmac : Bytes → Bytes → Bytes
  -- Whether there is room for a response that grows.
  pub realloc : Trace → ℕ → Bool
  -- Whether libcurl has memory for one more header.
  pub slist_append : Trace → Bytes → Bool
  pub easy_init : Trace → Option ℕ
  pub perform : Trace → Request → Response
  -- Files: `fstat` gives the size, `fread` the bytes that it read.
  pub fopen : Trace → Bytes → Option ℕ
  pub fstat : Trace → ℕ → Option ℤ
  pub fseeko : Trace → ℕ → ℕ → Bool
  pub fread : Trace → ℕ → ℕ → Bytes
  pub fwrite : Trace → ℕ → Bytes → ℕ
  -- Whether what `fwrite` left in its buffer reaches the file when that is closed.
  pub fclose : Trace → ℕ → Bool
  -- The address of an anonymous mapping, and what a mapping holds, whoever wrote it.
  pub mmap : Trace → ℕ → Option ℕ
  pub memory : Trace → ℕ → ℕ → Bytes

-- Which failure a function reports, by the message that it leaves in `err`; `silent` leaves none.
pub data Error : Type 0 where
  silent invalid_url resolve_failed connect_failed : Error
  -- Stands for what C leaves undefined: a read past the end of a buffer.
  out_of_bounds : Error
  handshake_not_sent handshake_not_read handshake_rejected : Error
  no_register_response unexpected_message : Error
  registration_failed : Bytes → Error
  open_device_failed alloc_pd_failed create_cq_failed create_qp_failed : Error
  qp_to_init_failed query_gid_failed query_mtu_failed qp_info_not_sent no_qp_info : Error
  qp_to_rtr_failed qp_to_rts_failed out_of_memory reg_mr_failed token_not_sent : Error
  empty_file part_out_of_range : Error
  curl_init_failed request_failed missing_upload_id parts_not_parsed : Error
  invalid_part_size mmap_failed seek_failed read_failed write_failed open_failed stat_failed : Error
  usage_shown no_parts : Error

pub data Result {ℓ} (A : Type ℓ) : Type ℓ where
  ok : A → Result A
  err : Error → Result A

-- A program over a state.
abbrev pub Prog : Type 0 → Type 0 → Type 0
Prog S A = S → Result A × S

abbrev pub Cmd : Type 0 → Type 0
Cmd A = Prog Trace A

abbrev pub pure : {S A : Type 0} → A → Prog S A
pure a s = (ok a, s)

abbrev pub fail : {S A : Type 0} → Error → Prog S A
fail e s = (err e, s)

abbrev pub emit : Event → Cmd (Unit {0})
emit e t = (ok tt, e ∷ t)

-- What a command goes on with after a part that may have failed.
abbrev pub continue : {S A B : Type 0} → Result A × S → (A → Prog S B) → Result B × S
continue p k = elim p.0 [ ok a ↦ k a p.1 | err e ↦ (err e, p.1) ]

infixl 5 ◌>>=◌ ◌>>◌
abbrev pub ◌>>=◌ : {S A B : Type 0} → Prog S A → (A → Prog S B) → Prog S B
◌>>=◌ m k t = continue (m t) k

abbrev pub ◌>>◌ : {S B : Type 0} → Prog S (Unit {0}) → Prog S B → Prog S B
m >> k = m >>= λ _. k

-- `if` between commands.
infix 1 when◌then◌else◌
abbrev pub when◌then◌else◌ : {S A : Type 0} → Bool → Prog S A → Prog S A → Prog S A
when◌then◌else◌ b m n t = if b then m t else n t

-- A call that gives back a resource or fails with `e`.
abbrev pub taken : (ℕ → Resource) → Error → Option ℕ → Cmd ℕ
taken r e o t = elim o [ none ↦ (err e, failed ∷ t) | some x ↦ (ok x, acquired (r x) ∷ t) ]

-- A part that fails is followed by `undo`, and then the failure is reported.
abbrev pub undoing : {S A : Type 0} → Prog S (Unit {0}) → Result A × S → Result A × S
undoing undo p = elim p.0 [ ok a ↦ (ok a, p.1) | err e ↦ (err e, (undo p.1).1) ]

abbrev pub or_else : {S A : Type 0} → Prog S A → Prog S (Unit {0}) → Prog S A
or_else m undo t = undoing undo (m t)

-- A part that fails does so with the message `e`.
abbrev pub reporting : {S A : Type 0} → Error → Result A × S → Result A × S
reporting e p = elim p.0 [ ok a ↦ (ok a, p.1) | err _ ↦ (err e, p.1) ]

abbrev pub report : {S A : Type 0} → Error → Prog S A → Prog S A
report e m t = reporting e (m t)

-- The outcome of a part as a value, for code that goes on in both cases, and back.
abbrev pub attempt : {S A : Type 0} → Prog S A → Prog S (Result A)
attempt m s = (ok (m s).0, (m s).1)

abbrev pub outcome : {S A : Type 0} → Result A → Prog S A
outcome r s = (r, s)

-- What a call answers, where the answer depends on the trace.
abbrev pub ask : {A : Type 0} → (Trace → A) → Cmd A
ask f t = (ok (f t), t)
