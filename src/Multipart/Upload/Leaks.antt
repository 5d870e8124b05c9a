-- ===== src/Multipart/Upload/Leaks.antt =====
-- What an upload holds when it ends.
use storefs.Prelude.{arith, ℕ, ◌*◌, ◌==◌, Option, none, some, List, [], ◌∷◌, ◌++◌, length, take}
use storefs.Prelude.Int.{ℤ, pos, negsuc}
use storefs.Prelude.Text.{Bytes}
use storefs.Endpoint.{ws_url_from_endpoint}
use storefs.Os.{
  Resource, file, mapping, block, released, Os, invalid_part_size, mmap_failed, seek_failed,
  read_failed, open_failed, stat_failed, empty_file, part_out_of_range, out_of_memory, Trace,
  Result, emit,
}
use storefs.Os.Live.{live, sound, same, kind, ident, good, Holds, Triple, bind, taken_lem}
use storefs.Os.Rules.{
  Kept, release_lem, ask_lem, when_lem, pure_lem, fail_lem, finally_lem, or_else_lem, loaded_lem,
}
use storefs.Headers.Whole.{Appends}
use storefs.Verbs.Leaks.{HasDevice}
use storefs.Session.Held.{objects}
use storefs.Session.Share.{destroy_lem}
use storefs.Session.Leaks.{rdma_send_setup_lem}
use storefs.Sign.{Config, key_text}
use storefs.Multipart.Options.{Options}
use storefs.Multipart.Xml.{CompletedPart}
use storefs.Multipart.Plan.{Slice, num_parts, int_lt, chosen, check_part, upload_loop}
use storefs.Multipart.Requests.Leaks.{s3_upload_part_empty_lem}
use storefs.Multipart.Upload.{
  rdma_port, rdma_gid_idx, request_id, size_of, sized, read_part, mmap_part, show_part,
  upload_one_part_rdma, find_slices, fill_parts, upload_parts_rdma,
}

check_part_lem :
    {P : Trace → Type 0} (n ps : ℕ) (part : ℤ) → Triple P (check_part n ps part) (λ _. P) P
unfolding check_part
check_part_lem n ps (negsuc k) =
    when_lem (n == 0) (fail_lem empty_file) (fail_lem part_out_of_range)
check_part_lem n ps (pos part) = when_lem (n == 0) (fail_lem empty_file) (
    when_lem (int_lt (num_parts n ps) part) (fail_lem part_out_of_range)
      (pure_lem (chosen n ps part)))

sized_lem :
    {P : Trace → Type 0} (part_size part : ℤ) (st : Option ℤ)
    → Triple P (sized part_size part st) (λ _. P) P
unfolding sized
sized_lem part_size part none = fail_lem stat_failed
sized_lem part_size part (some (negsuc n)) = fail_lem empty_file
sized_lem part_size part (some (pos n)) = check_part_lem n (size_of part_size) part

pub upload_loop_lem :
    {S : Type 0} {P : S → Type 0} (one : Slice → S → Result CompletedPart × S)
    → ((s : Slice) → Triple P (one s) (λ _. P) P)
    → (ss : List Slice) → Triple P (upload_loop one ss) (λ _. P) P
unfolding upload_loop
upload_loop_lem one h [] = pure_lem []
upload_loop_lem one h (s ∷ ss) =
    bind (h s) λ part. bind (upload_loop_lem one h ss) λ parts. pure_lem (part ∷ parts)

file_closed :
    {E : Trace → Type 0} (b f : ℕ) (xs : List Resource)
    → Triple
        (Holds (block b ∷ file f ∷ xs))
        (emit (released (file f)))
        (λ _. Holds (block b ∷ xs))
        E
unfolding live sound same kind ident
file_closed b f xs = record { run = λ t h. good (ground arith) }

module _ (os : Os) where
  read_part_lem : (f buf : ℕ) (s : Slice) (xs : List Resource) → Kept xs (read_part os f buf s)
  unfolding read_part
  read_part_lem f buf s xs = bind (ask_lem (λ t. os.fseeko t f s.offset)) λ sought.
      when_lem sought
        (bind (ask_lem (λ t. os.fread t f s.len))
          λ got. when_lem (length got == s.len) (loaded_lem buf got xs) (fail_lem read_failed))
        (fail_lem seek_failed)

  mmap_part_lem :
      (f : ℕ) (s : Slice) (xs : List Resource)
      → Triple (Holds xs) (mmap_part os f s) (λ buf. Holds (mapping buf ∷ xs)) (Holds xs)
  unfolding mmap_part
  mmap_part_lem f s xs = when_lem (s.len == 0) (fail_lem invalid_part_size) (
      bind (taken_lem mapping mmap_failed (λ t. os.mmap t s.len) xs) λ buf.
        bind (or_else_lem (read_part_lem f buf s (mapping buf ∷ xs)) (release_lem (mapping buf) xs))
          λ _. pure_lem {Q = λ b. Holds (mapping b ∷ xs)} buf)

  module _ (cfg : Config) (o : Options) (some_device : HasDevice os) (appends : Appends os) where
    show_part_lem :
        (upload_id : Bytes) (s : Slice) (buf : ℕ) (xs : List Resource)
        → Triple
            (Holds (mapping buf ∷ xs))
            (show_part os cfg o upload_id s buf)
            (λ _. Holds xs)
            (Holds xs)
    unfolding show_part
    show_part_lem upload_id s buf xs = bind (ask_lem os.time) λ now.
        let id = request_id os.getpid s.number now in
        bind
          (or_else_lem
            (rdma_send_setup_lem os (ws_url_from_endpoint o.endpoint 512) (some o.rdma_dev)
              rdma_port rdma_gid_idx id buf s.len (mapping buf ∷ xs) some_device)
            (release_lem (mapping buf) xs))
          λ sess.
            finally_lem
              (s3_upload_part_empty_lem os cfg (key_text o.bucket) o.object appends upload_id
                (pos s.number) id 256
                (objects sess ++ (Resource.session sess.block ∷ mapping buf ∷ xs)))
              (λ _. bind (destroy_lem os sess (mapping buf ∷ xs)) λ _. release_lem (mapping buf) xs)
              (bind (destroy_lem os sess (mapping buf ∷ xs)) λ _. release_lem (mapping buf) xs)

    upload_one_lem :
        (f : ℕ) (upload_id : Bytes) (s : Slice) (xs : List Resource)
        → Kept xs (upload_one_part_rdma os cfg o f upload_id s)
    unfolding upload_one_part_rdma
    upload_one_lem f upload_id s xs = bind (mmap_part_lem f s xs) λ buf.
        bind (show_part_lem upload_id s buf xs) λ etag.
          pure_lem
            (record { part_number = pos s.number; etag = take 255 etag; size = some (pos s.len) })

    find_slices_lem : (f : ℕ) (xs : List Resource) → Kept xs (find_slices os cfg o f)
    unfolding find_slices
    find_slices_lem f xs = bind (ask_lem (λ t. os.fstat t f)) λ st. sized_lem o.part_size o.part st

    fill_parts_lem :
        (f : ℕ) (upload_id : Bytes) (ss : List Slice) (xs : List Resource)
        → Triple
            (Holds xs)
            (fill_parts os cfg o f upload_id ss)
            (λ l. Holds (block l.store ∷ xs))
            (Holds xs)
    unfolding fill_parts
    fill_parts_lem f upload_id ss xs =
        bind (taken_lem block out_of_memory (λ t. os.malloc t (length ss * 272)) xs) λ b.
          bind
            (or_else_lem
              (upload_loop_lem (upload_one_part_rdma os cfg o f upload_id)
                (λ s. upload_one_lem f upload_id s (block b ∷ xs)) ss)
              (release_lem (block b) xs))
            λ parts.
              pure_lem {Q = λ l. Holds (block l.store ∷ xs)} (record { store = b; parts = parts })

    pub upload_parts_rdma_lem :
        (upload_id : Bytes) (xs : List Resource)
        → Triple
            (Holds xs)
            (upload_parts_rdma os cfg o upload_id)
            (λ l. Holds (block l.store ∷ xs))
            (Holds xs)
    unfolding upload_parts_rdma
    upload_parts_rdma_lem upload_id xs =
        bind (taken_lem file open_failed (λ t. os.fopen t (key_text o.file_path)) xs) λ f.
          finally_lem
            (bind (find_slices_lem f (file f ∷ xs))
              λ ss. fill_parts_lem f upload_id ss (file f ∷ xs))
            (λ l. file_closed l.store f xs) (release_lem (file f) xs)
