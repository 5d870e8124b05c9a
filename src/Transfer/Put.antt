-- ===== src/Transfer/Put.antt =====
-- `main` of examples/rdma/c/s3rdmaput.c.
pub mod Leaks
use storefs.Prelude.{ℕ, none, some, List, [], length, ◌==◌, if◌then◌else◌}
use storefs.Prelude.Int.{bits}
use storefs.Prelude.Text.{Bytes, codes}
use storefs.Endpoint.{plain_url_from_endpoint}
use storefs.Os.{
  file, mapping, released, loaded, Os, Error, usage_shown, open_failed, stat_failed, mmap_failed,
  read_failed, Result, ok, err, Cmd, pure, fail, emit, taken, or_else, attempt, outcome, ask, ◌>>=◌,
  ◌>>◌, when◌then◌else◌,
}
use storefs.Session.{rdma_send_setup, rdma_session_destroy}
use storefs.Client.{s3_put_object}
use storefs.Transfer.{Target, read_args, target_of, default_args, transfer_id}

module _ (os : Os) where
  unfoldable pub stat_size : ℕ → Cmd ℕ
  stat_size f = do
    st ← ask (λ t. os.fstat t f)
    elim st [ none ↦ fail stat_failed | some size ↦ pure (bits 64 size) ]

  -- A file without a byte is not read.
  unfoldable pub load_file : (f buf size : ℕ) → Cmd (Unit {0})
  load_file f buf size = when size == 0 then pure tt else (do
    got ← ask (λ t. os.fread t f size)
    when length got == size then emit (loaded buf got) else fail read_failed)

  -- The file in a mapping of at least one byte: the address and the size.
  unfoldable pub map_file : Bytes → Cmd (ℕ × ℕ)
  unfolding stat_size load_file
  map_file path = do
    f ← λ t. taken file open_failed (os.fopen t path) t
    size ← or_else (stat_size f) (emit (released (file f)))
    buf ←
        or_else (λ t. taken mapping mmap_failed (os.mmap t (if size == 0 then 1 else size)) t)
          (emit (released (file f)))
    or_else (load_file f buf size) (emit (released (file f)) >> emit (released (mapping buf)))
    emit (released (file f))
    pure (buf, size)

  unfoldable pub put_file : Target → Cmd (Unit {0})
  unfolding map_file
  put_file a = do
    (buf, size) ← map_file a.file_path
    let id = transfer_id os
    sess ←
        or_else
          (rdma_send_setup os (plain_url_from_endpoint a.cfg.endpoint 300) (some a.rdma_dev) 1 0 id
            buf size)
          (emit (released (mapping buf)))
    r ← attempt (s3_put_object os a.cfg a.bucket a.object (some (codes "X-RDMA-Request-ID", id)))
    rdma_session_destroy sess >> emit (released (mapping buf))
    outcome r

unfoldable pub put_main : Os → List Bytes → Cmd (Unit {0})
unfolding put_file read_args target_of
put_main os argv = elim (read_args argv default_args) [
  | none ↦ fail usage_shown
  | some args ↦ elim (target_of args) [ none ↦ fail usage_shown | some a ↦ put_file os a ]
]
