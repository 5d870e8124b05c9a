-- ===== src/Multipart/Upload/Parts.antt =====
-- Which parts an upload returns.
use storefs.Prelude.{
  ℕ, ◌*◌, ◌≡◌, ◌==◌, refl, sym, ap, Option, none, some, List, [], ◌∷◌, length, take,
}
use storefs.Prelude.Int.{ℤ, pos, negsuc}
use storefs.Prelude.Text.{Bytes}
use storefs.Os.{
  file, block, released, Trace, Os, Error, open_failed, empty_file, out_of_memory,
  part_out_of_range, Result, ok, err, Cmd, emit, pure, fail, taken, or_else, undoing, ◌>>=◌,
}
use storefs.Os.Live.{Outcome, good, bad, Triple, bind}
use storefs.Os.Rules.{finally_lem, when_lem}
use storefs.Http.Success.{Anything, mapped}
use storefs.Sign.{Config, key_text}
use storefs.Multipart.Options.{Options}
use storefs.Multipart.Xml.{CompletedPart}
use storefs.Multipart.Plan.{Slice, chosen, num_parts, int_lt, check_part, upload_loop}
use storefs.Multipart.Store.{Listed}
use storefs.Multipart.Upload.{
  size_of, sized, mmap_part, show_part, upload_one_part_rdma, find_slices, fill_parts,
  upload_parts_rdma,
}

-- The parts have the numbers and the sizes of the slices, in the same order.
pub Describes : List Slice → List CompletedPart → Type 0
Describes [] [] = Unit {0}
Describes [] (p ∷ ps) = ⊥
Describes (s ∷ ss) [] = ⊥
Describes (s ∷ ss) (p ∷ ps) =
    (p.part_number ≡ pos s.number) × (p.size ≡ some (pos s.len)) × Describes ss ps

either_way : {A : Type 0} (p : Result A × Trace) → Outcome (λ _. Anything) Anything p
either_way (ok a, t) = good tt
either_way (err e, t) = bad tt

whatever : {A : Type 0} (m : Cmd A) → Triple Anything m (λ _. Anything) Anything
whatever m = record { run = λ t h. either_way (m t) }

-- A value that the trace does not matter for.
abbrev Gives : {A : Type 0} → Cmd A → (A → Type 0) → Type 0
Gives {A} m Q = Triple {A = A} Anything m (λ a _. Q a) Anything

Gives-pure : {A : Type 0} {Q : A → Type 0} (a : A) → Q a → Gives {A = A} (pure a) Q
Gives-pure a q = record { run = λ t h. good q }

Gives-fail : {A : Type 0} {Q : A → Type 0} (e : Error) → Gives {A = A} (fail e) Q
Gives-fail e = record { run = λ t h. bad tt }

-- The value of a part that a later part uses.
then_lem :
    {A B : Type 0} {Q : A → Type 0} {R : B → Type 0} {m : Cmd A} {k : A → Cmd B}
    → Gives m Q
    → ((a : A) → Q a → Gives (k a) R)
    → Gives (m >>= k) R
then_lem {Q} {R} {k} hm hk = bind hm λ a. record { run = λ t q. (hk a q).run t tt }

undone :
    {A : Type 0} {Q : A → Type 0} (undo : Cmd (Unit {0})) (p : Result A × Trace)
    → Outcome (λ a _. Q a) Anything p
    → Outcome (λ a _. Q a) Anything (undoing undo p)
undone undo p (good q) = good q
undone undo p (bad h) = bad tt

Gives-or_else :
    {A : Type 0} {Q : A → Type 0} {m : Cmd A} (undo : Cmd (Unit {0}))
    → Gives m Q
    → Gives (or_else m undo) Q
Gives-or_else {m} undo hm = record { run = λ t h. undone undo (m t) (hm.run t h) }

-- The slices of a file of `n` bytes.
abbrev pub SlicesOf : Os → Options → ℕ → List Slice → Type 0
SlicesOf os o k ss =
    (n : ℕ) × (t : Trace) × (f : ℕ) × (os.fstat t f ≡ some (pos n))
    × (ss ≡ chosen n (size_of o.part_size) k)

-- What is known of a value, where it is returned.
good_at :
    {A : Type 0} {Q : A → Type 0} {p : Result A × Trace} {a : A}
    → Outcome (λ a _. Q a) Anything p
    → p.0 ≡ ok a
    → Q a
good_at {A} {Q} (good {a = b} q) e =
    rw (sym (ap {B = A} (λ r. elim r [ ok x ↦ x | err _ ↦ b ]) e)) q
good_at (bad h) e = absurd cc

module _ (os : Os) (cfg : Config) (o : Options) where
  one_lem :
      (f : ℕ) (upload_id : Bytes) (s : Slice)
      → Gives
          (upload_one_part_rdma os cfg o f upload_id s)
          (λ p. (p.part_number ≡ pos s.number) × (p.size ≡ some (pos s.len)))
  unfolding upload_one_part_rdma
  one_lem f upload_id s = bind (whatever (mmap_part os f s)) λ buf.
      bind (whatever (show_part os cfg o upload_id s buf)) λ etag.
        Gives-pure
          (record { part_number = pos s.number; etag = take 255 etag; size = some (pos s.len) })
          (refl, refl)

  loop_lem :
      (f : ℕ) (upload_id : Bytes) (ss : List Slice)
      → Gives (upload_loop (upload_one_part_rdma os cfg o f upload_id) ss) (Describes ss)
  unfolding upload_loop Describes
  loop_lem f upload_id [] = Gives-pure [] tt
  loop_lem f upload_id (s ∷ ss) =
      then_lem (one_lem f upload_id s)
        λ p (a, b). then_lem (loop_lem f upload_id ss) λ ps h. Gives-pure (p ∷ ps) (a, b, h)

  fill_lem :
      (f : ℕ) (upload_id : Bytes) (ss : List Slice)
      → Gives (fill_parts os cfg o f upload_id ss) (λ l. Describes ss l.parts)
  unfolding fill_parts
  fill_lem f upload_id ss =
      bind (whatever (λ t. taken block out_of_memory (os.malloc t (length ss * 272)) t)) λ b.
        then_lem (Gives-or_else (emit (released (block b))) (loop_lem f upload_id ss))
          λ parts h. Gives-pure (record { store = b; parts = parts }) h

  check_lem :
      (n ps k : ℕ) (Q : List Slice → Type 0) → Q (chosen n ps k) → Gives (check_part n ps (pos k)) Q
  unfolding check_part
  check_lem n ps k Q q = when_lem (n == 0) (Gives-fail empty_file) (
      when_lem (int_lt (num_parts n ps) k) (Gives-fail part_out_of_range)
        (Gives-pure (chosen n ps k) q))

  sized_lem :
      (st : Option ℤ) (t : Trace) (f k : ℕ)
      → os.fstat t f ≡ st
      → Outcome (λ ss _. SlicesOf os o k ss) Anything (sized o.part_size (pos k) st t)
  unfolding sized
  sized_lem none t f k e = bad tt
  sized_lem (some (negsuc n)) t f k e = bad tt
  sized_lem (some (pos n)) t f k e =
      (check_lem n (size_of o.part_size) k (SlicesOf os o k) (n, t, f, e, refl)).run t tt

  part_lem :
      (part : ℤ) (t : Trace) (f k : ℕ)
      → part ≡ pos k
      → Outcome (λ ss _. SlicesOf os o k ss) Anything (sized o.part_size part (os.fstat t f) t)
  part_lem part t f k e = rw e (sized_lem (os.fstat t f) t f k refl)

  find_lem : (f k : ℕ) → o.part ≡ pos k → Gives (find_slices os cfg o f) (SlicesOf os o k)
  unfolding find_slices
  find_lem f k e = record { run = λ t h. part_lem o.part t f k e }

  sliced :
      (k : ℕ) (ss : List Slice) {m : Cmd Listed}
      → Gives m (λ l. Describes ss l.parts)
      → SlicesOf os o k ss
      → Gives m (λ l. (ss : List Slice) × Describes ss l.parts × SlicesOf os o k ss)
  sliced k ss hm h = record { run = λ t _. mapped (λ l d. (ss, d, h)) (hm.run t tt) }

  parts_lem :
      (upload_id : Bytes) (k : ℕ)
      → o.part ≡ pos k
      → Gives
          (upload_parts_rdma os cfg o upload_id)
          (λ l. (ss : List Slice) × Describes ss l.parts × SlicesOf os o k ss)
  unfolding upload_parts_rdma
  parts_lem upload_id k e =
      bind (whatever (λ t. taken file open_failed (os.fopen t (key_text o.file_path)) t)) λ f.
        finally_lem (then_lem (find_lem f k e) λ ss h. sliced k ss (fill_lem f upload_id ss) h)
          (λ l. record { run = λ t q. good q }) (whatever (emit (released (file f))))

  -- The parts that an upload returns are the slices of the file: where the upload succeeds, for an
  -- option -part that is not negative, there is one
  -- part for each slice of a file of the size that `fstat` told, with its number and its length, and in
  -- the order of the file; all slices for part 0, and the one slice of the part else.
  pub upload_parts_rdma-Describes :
      (upload_id : Bytes) (k : ℕ) (l : Listed) (t : Trace)
      → o.part ≡ pos k
      → (upload_parts_rdma os cfg o upload_id t).0 ≡ ok l
      → (ss : List Slice) × Describes ss l.parts × SlicesOf os o k ss
  upload_parts_rdma-Describes upload_id k l t e done =
      good_at ((parts_lem upload_id k e).run t tt) done
