-- ===== src/Transfer/Put/Leaks.antt =====
-- What the client that uploads an object holds when it ends.
use storefs.Prelude.{ℕ, ◌==◌, if◌then◌else◌, Option, none, some, List, ◌∷◌, ◌++◌, length, arith}
use storefs.Prelude.Int.{ℤ, bits}
use storefs.Prelude.Text.{Bytes, codes}
use storefs.Endpoint.{plain_url_from_endpoint}
use storefs.Os.{
  Resource, file, mapping, released, Os, usage_shown, open_failed, stat_failed, mmap_failed,
  read_failed, Trace, emit, pure, fail, when◌then◌else◌,
}
use storefs.Os.Live.{live, sound, same, kind, ident, good, Holds, Triple, bind, taken_lem}
use storefs.Os.Rules.{
  Kept, release_lem, ask_lem, pure_lem, fail_lem, when_lem, finally_lem, or_else_lem, loaded_lem,
  ended,
}
use storefs.Headers.Whole.{Appends}
use storefs.Verbs.Leaks.{HasDevice}
use storefs.Session.Held.{objects}
use storefs.Session.Share.{destroy_lem}
use storefs.Session.Leaks.{rdma_send_setup_lem}
use storefs.Client.Leaks.{s3_put_object_lem}
use storefs.Transfer.{Args, Target, read_args, target_of, default_args, transfer_id}
use storefs.Transfer.Put.{stat_size, load_file, map_file, put_file, put_main}

-- A file goes behind what it was mapped to.
file_behind :
    {E : Trace → Type 0} (b f : ℕ) (xs : List Resource)
    → Triple
        (Holds (mapping b ∷ file f ∷ xs))
        (emit (released (file f)))
        (λ _. Holds (mapping b ∷ xs))
        E
unfolding live sound same kind ident
file_behind b f xs = record { run = λ t h. good (ground arith) }

module _ (os : Os) where
  stat_size_lem : (f : ℕ) (xs : List Resource) → Kept xs (stat_size os f)
  unfolding stat_size
  stat_size_lem f xs = bind (ask_lem (λ t. os.fstat t f)) λ st. sized st
    where
      sized :
          (st : Option ℤ)
          → Kept {A = ℕ} xs (elim st [ none ↦ fail stat_failed | some size ↦ pure (bits 64 size) ])
      sized none = fail_lem stat_failed
      sized (some size) = pure_lem (bits 64 size)

  load_file_lem : (f buf size : ℕ) (xs : List Resource) → Kept xs (load_file os f buf size)
  unfolding load_file
  load_file_lem f buf size xs = when_lem (size == 0) (pure_lem tt) (
      bind (ask_lem (λ t. os.fread t f size))
        λ got. when_lem (length got == size) (loaded_lem buf got xs) (fail_lem read_failed))

  map_file_lem :
      (path : Bytes) (xs : List Resource)
      → Triple (Holds xs) (map_file os path) (λ p. Holds (mapping p.0 ∷ xs)) (Holds xs)
  unfolding map_file
  map_file_lem path xs = bind (taken_lem file open_failed (λ t. os.fopen t path) xs) λ f.
      bind (or_else_lem (stat_size_lem f (file f ∷ xs)) (release_lem (file f) xs)) λ size.
        bind
          (or_else_lem
            (taken_lem mapping mmap_failed (λ t. os.mmap t (if size == 0 then 1 else size))
              (file f ∷ xs))
            (release_lem (file f) xs))
          λ buf.
            bind
              (or_else_lem (load_file_lem f buf size (mapping buf ∷ file f ∷ xs))
                (bind (file_behind buf f xs) λ _. release_lem (mapping buf) xs))
              λ _.
                bind (file_behind buf f xs)
                  λ _. pure_lem {Q = λ p. Holds (mapping p.0 ∷ xs)} (buf, size)

  put_file_lem :
      (a : Target) (xs : List Resource) → HasDevice os → Appends os → Kept xs (put_file os a)
  unfolding put_file
  put_file_lem a xs some_device appends = bind (map_file_lem a.file_path xs) λ (buf, size).
      bind
        (or_else_lem
          (rdma_send_setup_lem os (plain_url_from_endpoint a.cfg.endpoint 300) (some a.rdma_dev) 1 0
            (transfer_id os) buf size (mapping buf ∷ xs) some_device)
          (release_lem (mapping buf) xs))
        λ sess.
          finally_lem
            (s3_put_object_lem os a.cfg a.bucket a.object
              (some (codes "X-RDMA-Request-ID", transfer_id os))
              (objects sess ++ (Resource.session sess.block ∷ mapping buf ∷ xs)) appends)
            (λ _. bind (destroy_lem os sess (mapping buf ∷ xs)) λ _. release_lem (mapping buf) xs)
            (bind (destroy_lem os sess (mapping buf ∷ xs)) λ _. release_lem (mapping buf) xs)

-- The client that uploads an object ends with what was held before, whatever fails but
-- `curl_slist_append`. Where there is a list of devices, there is a device in it, and libcurl has memory
-- for each header.
pub put_main-Holds :
    (os : Os) (argv : List Bytes) (xs : List Resource) (t : Trace)
    → HasDevice os
    → Appends os
    → Holds xs t
    → Holds xs (put_main os argv t).1
unfolding put_main
put_main-Holds os argv xs t some_device appends h =
    ended ((parsed (read_args argv default_args)).run t h)
  where
    targeted :
        (p : Option Target)
        → Kept {A = Unit {0}} xs (elim p [ none ↦ fail usage_shown | some a ↦ put_file os a ])
    targeted none = fail_lem usage_shown
    targeted (some a) = put_file_lem os a xs some_device appends

    parsed :
        (p : Option Args)
        → Kept {A = Unit {0}} xs (elim p [
          | none ↦ fail usage_shown
          | some args ↦ elim (target_of args) [ none ↦ fail usage_shown | some a ↦ put_file os a ]
        ])
    parsed none = fail_lem usage_shown
    parsed (some args) = targeted (target_of args)
