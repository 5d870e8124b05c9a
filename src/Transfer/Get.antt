-- ===== src/Transfer/Get.antt =====
-- `main` of examples/rdma/c/s3rdmaget.c. The checksum that it prints is left out.
pub mod Leaks
use storefs.Prelude.{ℕ, none, some, List, [], take, ◌==◌}
use storefs.Prelude.Int.{ℤ, bits}
use storefs.Prelude.Text.{Bytes, codes}
use storefs.Endpoint.{plain_url_from_endpoint}
use storefs.Os.{
  file, mapping, released, saved, failed, Os, Error, usage_shown, open_failed, mmap_failed,
  write_failed, Result, ok, err, Cmd, pure, fail, emit, taken, or_else, attempt, outcome, ask,
  ◌>>=◌, ◌>>◌, when◌then◌else◌,
}
use storefs.Session.{rdma_recv_setup, rdma_session_destroy}
use storefs.Client.{s3_head_object, s3_get_object}
use storefs.Transfer.{Target, read_args, target_of, default_args, transfer_id}

module _ (os : Os) where
  -- The session, and the request that has the server write into the mapping.
  unfoldable pub fetch : Target → (buf size : ℕ) → Cmd (Unit {0})
  fetch a buf size = do
    let id = transfer_id os
    sess ←
        rdma_recv_setup os (plain_url_from_endpoint a.cfg.endpoint 300) (some a.rdma_dev) 1 0 id buf
          size
    r ← attempt (s3_get_object os a.cfg a.bucket a.object (some (codes "X-RDMA-Request-ID", id)))
    rdma_session_destroy sess
    outcome r

  -- `fwrite` takes what the mapping holds at that time.
  unfoldable pub write_file : (f buf size : ℕ) → Cmd (Unit {0})
  write_file f buf size = do
    data_there ← ask (λ t. os.memory t buf size)
    n ← ask (λ t. os.fwrite t f data_there)
    emit (saved f (take n data_there))
    when n == size then pure tt else fail write_failed

  -- `fclose`, whose result the code does not look at: it fails where what `fwrite` left in its buffer
  -- does not reach the file.
  unfoldable pub close_file : ℕ → Cmd (Unit {0})
  close_file f = do
    flushed ← ask (λ t. os.fclose t f)
    when flushed then pure tt else emit failed
    emit (released (file f))

  unfoldable pub save : (path : Bytes) → (buf size : ℕ) → Cmd (Unit {0})
  unfolding write_file close_file
  save path buf size = do
    f ← λ t. taken file open_failed (os.fopen t path) t
    r ← attempt (write_file f buf size)
    close_file f
    outcome r

  unfoldable pub get_file : Target → Cmd (Unit {0})
  unfolding fetch save
  get_file a = do
    file_size ← s3_head_object os a.cfg a.bucket a.object
    let size = bits 64 file_size
    buf ← λ t. taken mapping mmap_failed (os.mmap t size) t
    r ← attempt (do fetch a buf size; save a.file_path buf size)
    emit (released (mapping buf))
    outcome r

unfoldable pub get_main : Os → List Bytes → Cmd (Unit {0})
unfolding get_file read_args target_of
get_main os argv = elim (read_args argv default_args) [
  | none ↦ fail usage_shown
  | some args ↦ elim (target_of args) [ none ↦ fail usage_shown | some a ↦ get_file os a ]
]
