-- ===== src/Multipart/Upload.antt =====
-- The upload of one part and of a file in examples/rdma/c/s3rdmamultipart.c: the part is read into a
-- mapping, which a session of the send side shows to the server, and a request without a body tells
-- the server to read it.
pub mod Leaks
pub mod Parts
use storefs.Prelude.{
  ℕ, zero, suc, ◌*◌, List, [], ◌∷◌, ◌++◌, length, take, Option, none, some, ◌==◌, Bool,
  if◌then◌else◌,
}
use storefs.Prelude.Int.{ℤ, pos, negsuc}
use storefs.Prelude.Text.{Bytes, codes, printed}
use storefs.Prelude.Decimal.{signed_decimal}
use storefs.Endpoint.{ws_url_from_endpoint}
use storefs.Os.{
  file, mapping, block, released, loaded, Os, Error, invalid_part_size, mmap_failed, seek_failed,
  read_failed, open_failed, stat_failed, empty_file, out_of_memory, Result, ok, err, Cmd, pure,
  fail, emit, taken, or_else, outcome, attempt, ask, ◌>>=◌, ◌>>◌, when◌then◌else◌,
}
use storefs.Session.{rdma_send_setup, rdma_session_destroy}
use storefs.Sign.{Config, key_text}
use storefs.Multipart.Options.{Options}
use storefs.Multipart.Xml.{CompletedPart}
use storefs.Multipart.Plan.{Slice, check_part, upload_loop}
use storefs.Multipart.Store.{Listed}
use storefs.Multipart.Requests.{s3_upload_part_empty}

-- `RDMA_PORT` and `RDMA_GID_IDX`
abbrev pub rdma_port : ℕ
rdma_port = 1

abbrev pub rdma_gid_idx : ℕ
rdma_gid_idx = 0

-- The name of the request that ties a session to the upload of its part.
unfoldable pub request_id : (pid part_number now : ℕ) → Bytes
request_id pid part_number now = printed 128 (
    codes "rdma-multipart-"
    ++ (signed_decimal (pos pid)
        ++ (codes "-part-"
            ++ (signed_decimal (pos part_number) ++ (b'-' ∷ signed_decimal (pos now))))))

-- `part_size`, which `parse_args` lets through only if it is positive.
abbrev pub size_of : ℤ → ℕ
size_of (pos n) = n
size_of (negsuc n) = 0

-- What `upload_parts_rdma` makes of the answer of `fstat`.
unfoldable pub sized : (part_size part : ℤ) → Option ℤ → Cmd (List Slice)
unfolding check_part
sized part_size part none = fail stat_failed
sized part_size part (some (negsuc n)) = fail empty_file
sized part_size part (some (pos n)) = check_part n (size_of part_size) part

module _ (os : Os) where
  -- `fseeko` and `fread`
  unfoldable pub read_part : (f buf : ℕ) → Slice → Cmd (Unit {0})
  read_part f buf s = do
    sought ← ask (λ t. os.fseeko t f s.offset)
    when sought
        then (do
          got ← ask (λ t. os.fread t f s.len)
          when length got == s.len then emit (loaded buf got) else fail read_failed)
        else fail seek_failed

  unfoldable pub mmap_part : ℕ → Slice → Cmd ℕ
  unfolding read_part
  mmap_part f s = when s.len == 0 then fail invalid_part_size else (do
    buf ← λ t. taken mapping mmap_failed (os.mmap t s.len) t
    or_else (read_part f buf s) (emit (released (mapping buf)))
    pure buf)

  module _ (cfg : Config) (o : Options) where
    -- The request for the part, between the setup of its session and the end of it.
    unfoldable pub show_part : (upload_id : Bytes) → Slice → ℕ → Cmd Bytes
    unfolding request_id
    show_part upload_id s buf = do
      now ← ask os.time
      let id = request_id os.getpid s.number now
      sess ←
          or_else
            (rdma_send_setup os (ws_url_from_endpoint o.endpoint 512) (some o.rdma_dev) rdma_port
              rdma_gid_idx id buf s.len)
            (emit (released (mapping buf)))
      r ←
          attempt (
            s3_upload_part_empty os cfg (key_text o.bucket) o.object upload_id (pos s.number) id
              256)
      rdma_session_destroy sess >> emit (released (mapping buf))
      outcome r

    unfoldable pub upload_one_part_rdma : (f : ℕ) (upload_id : Bytes) → Slice → Cmd CompletedPart
    unfolding mmap_part show_part
    upload_one_part_rdma f upload_id s = do
      buf ← mmap_part f s
      etag ← show_part upload_id s buf
      pure (record { part_number = pos s.number; etag = take 255 etag; size = some (pos s.len) })

    -- `fstat` and the checks on the size and the part.
    unfoldable pub find_slices : ℕ → Cmd (List Slice)
    unfolding sized
    find_slices f = do st ← ask (λ t. os.fstat t f); sized o.part_size o.part st

    -- The array of the parts, and the loop that fills it.
    unfoldable pub fill_parts : (f : ℕ) (upload_id : Bytes) → List Slice → Cmd Listed
    unfolding upload_loop
    fill_parts f upload_id ss = do
      b ← λ t. taken block out_of_memory (os.malloc t (length ss * 272)) t
      parts ←
          or_else (upload_loop (upload_one_part_rdma f upload_id) ss) (emit (released (block b)))
      pure (record { store = b; parts = parts })

    unfoldable pub upload_parts_rdma : (upload_id : Bytes) → Cmd Listed
    unfolding find_slices fill_parts
    upload_parts_rdma upload_id = do
      f ← λ t. taken file open_failed (os.fopen t (key_text o.file_path)) t
      r ← attempt (do ss ← find_slices f; fill_parts f upload_id ss)
      emit (released (file f))
      outcome r
