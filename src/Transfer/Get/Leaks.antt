-- ===== src/Transfer/Get/Leaks.antt =====
-- What the client that downloads an object holds when it ends.
use storefs.Prelude.{ℕ, Bool, true, false, ◌==◌, Option, none, some, List, ◌∷◌, ◌++◌, take}
use storefs.Prelude.Int.{bits}
use storefs.Prelude.Text.{Bytes, codes}
use storefs.Endpoint.{plain_url_from_endpoint}
use storefs.Os.{
  Resource, file, mapping, Os, usage_shown, open_failed, mmap_failed, write_failed, failed, Trace,
  pure, fail, emit, when◌then◌else◌,
}
use storefs.Os.Live.{live, sound, good, Triple, Holds, bind, taken_lem}
use storefs.Os.Rules.{
  Kept, release_lem, ask_lem, pure_lem, fail_lem, when_lem, finally_lem, saved_lem, ended,
}
use storefs.Headers.Whole.{Appends}
use storefs.Verbs.Leaks.{HasDevice}
use storefs.Session.Held.{objects}
use storefs.Session.Share.{destroy_lem}
use storefs.Session.Leaks.{rdma_recv_setup_lem}
use storefs.Client.Leaks.{s3_head_object_lem, s3_get_object_lem}
use storefs.Transfer.{Args, Target, read_args, target_of, default_args, transfer_id}
use storefs.Transfer.Get.{fetch, write_file, close_file, save, get_file, get_main}

module _ (os : Os) where
  fetch_lem :
      (a : Target) (buf size : ℕ) (xs : List Resource)
      → HasDevice os
      → Appends os
      → Kept xs (fetch os a buf size)
  unfolding fetch
  fetch_lem a buf size xs some_device appends =
      bind
        (rdma_recv_setup_lem os (plain_url_from_endpoint a.cfg.endpoint 300) (some a.rdma_dev) 1 0
          (transfer_id os) buf size xs some_device)
        λ sess.
          finally_lem
            (s3_get_object_lem os a.cfg a.bucket a.object
              (some (codes "X-RDMA-Request-ID", transfer_id os))
              (objects sess ++ (Resource.session sess.block ∷ xs)) appends)
            (λ _. destroy_lem os sess xs) (destroy_lem os sess xs)

  write_file_lem : (f buf size : ℕ) (xs : List Resource) → Kept xs (write_file os f buf size)
  unfolding write_file
  write_file_lem f buf size xs = bind (ask_lem (λ t. os.memory t buf size)) λ held.
      bind (ask_lem (λ t. os.fwrite t f held)) λ n.
        bind (saved_lem f (take n held) xs)
          λ _. when_lem (n == size) (pure_lem tt) (fail_lem write_failed)

  close_file_lem :
      {E : Trace → Type 0} (f : ℕ) (xs : List Resource)
      → Triple (Holds (file f ∷ xs)) (close_file os f) (λ _. Holds xs) E
  unfolding close_file live sound
  close_file_lem {E = E} f xs =
      bind (ask_lem (λ t. os.fclose t f))
        λ flushed. bind (noted flushed) λ _. release_lem (file f) xs
    where
      noted :
          (b : Bool)
          → Triple
              (Holds (file f ∷ xs))
              (when b then pure tt else emit failed)
              (λ _. Holds (file f ∷ xs))
              E
      noted true = record { run = λ t h. good h }
      noted false = record { run = λ t h. good h }

  save_lem : (path : Bytes) (buf size : ℕ) (xs : List Resource) → Kept xs (save os path buf size)
  unfolding save
  save_lem path buf size xs = bind (taken_lem file open_failed (λ t. os.fopen t path) xs) λ f.
      finally_lem (write_file_lem f buf size (file f ∷ xs)) (λ _. close_file_lem f xs)
        (close_file_lem f xs)

  get_file_lem :
      (a : Target) (xs : List Resource) → HasDevice os → Appends os → Kept xs (get_file os a)
  unfolding get_file
  get_file_lem a xs some_device appends =
      bind (s3_head_object_lem os a.cfg a.bucket a.object xs appends) λ file_size.
        bind (taken_lem mapping mmap_failed (λ t. os.mmap t (bits 64 file_size)) xs) λ buf.
          finally_lem
            (bind (fetch_lem a buf (bits 64 file_size) (mapping buf ∷ xs) some_device appends)
              λ _. save_lem a.file_path buf (bits 64 file_size) (mapping buf ∷ xs))
            (λ _. release_lem (mapping buf) xs) (release_lem (mapping buf) xs)

-- The client that downloads an object ends with what was held before, whatever fails but
-- `curl_slist_append`. Where there is a list of devices, there is a device in it, and libcurl has memory
-- for each header.
pub get_main-Holds :
    (os : Os) (argv : List Bytes) (xs : List Resource) (t : Trace)
    → HasDevice os
    → Appends os
    → Holds xs t
    → Holds xs (get_main os argv t).1
unfolding get_main
get_main-Holds os argv xs t some_device appends h =
    ended ((parsed (read_args argv default_args)).run t h)
  where
    targeted :
        (p : Option Target)
        → Kept {A = Unit {0}} xs (elim p [ none ↦ fail usage_shown | some a ↦ get_file os a ])
    targeted none = fail_lem usage_shown
    targeted (some a) = get_file_lem os a xs some_device appends

    parsed :
        (p : Option Args)
        → Kept {A = Unit {0}} xs (elim p [
          | none ↦ fail usage_shown
          | some args ↦ elim (target_of args) [ none ↦ fail usage_shown | some a ↦ get_file os a ]
        ])
    parsed none = fail_lem usage_shown
    parsed (some args) = targeted (target_of args)
