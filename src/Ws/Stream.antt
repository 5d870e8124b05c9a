-- ===== src/Ws/Stream.antt =====
-- `read_full` of examples/rdma/c/rdmalib.c over a stream socket.
use storefs.Prelude.{
  ℕ, zero, suc, ◌+◌, ◌-◌, ◌≤◌, ◌<◌, ◌≡◌, ◌≢◌, refl, sym, ap, ◌∙◌, ◌⊎◌, true, none, some, [], ◌∷◌,
  ◌++◌, append_assoc, append-nil, cons-ne-nil, arith, length, length-append, ◌==◌, if◌then◌else◌,
}
use storefs.Prelude.Text.{Bytes}
use storefs.Os.{Event, received, Trace, Os, ok}
use storefs.Ws.{read_some, read_loop, read_full}

abbrev pub got : ℕ → Event → Bytes
got fd (received f s) = if f == fd then s else []
got fd _ = []

-- All that was read from a socket so far.
abbrev pub consumed : ℕ → Trace → Bytes
consumed fd [] = []
consumed fd (e ∷ t) = consumed fd t ++ got fd e

-- What `read` documents of a stream whose peer sends `s` and closes: a read gives some of the bytes
-- that are left, in order, at most as many as were asked for, and at the end no byte.
pub record Streams (os : Os) (fd : ℕ) (s : Bytes) : Type 0 where
  pub more :
      (t : Trace) (n : ℕ) (rest : Bytes)
      → consumed fd t ++ rest ≡ s
      → 0 < n
      → rest ≢ []
      → (c : ℕ) × (chunk : Bytes) × (left : Bytes) × (os.read t fd n ≡ some (c ∷ chunk))
        × (length (c ∷ chunk) ≤ n)
        × (rest ≡ (c ∷ chunk) ++ left)
  pub ended :
      (t : Trace) (n : ℕ) → consumed fd t ≡ s → (os.read t fd n ≡ none) ⊎ (os.read t fd n ≡ some [])

-- A front that is not longer than another of the same text is a front of it.
front_of :
    (chunk left xs rest : Bytes)
    → chunk ++ left ≡ xs ++ rest
    → length chunk ≤ length xs
    → (xs' : Bytes) × (xs ≡ chunk ++ xs') × (left ≡ xs' ++ rest)
front_of [] left xs rest e h = (xs, refl, e)
front_of (c ∷ chunk) left [] rest e h = absurd (omega arith)
front_of (c ∷ chunk) left (x ∷ xs) rest e h =
    let (xs', p, q) = front_of chunk left xs rest (cc) (omega arith) in (xs', cc, q)

-- What stands in the trace behind one read, and behind the reads that follow it.
regroup :
    {s full : Bytes} (fd : ℕ) (chunk xs rest : Bytes) (t : Trace)
    → full ≡ chunk ++ xs
    → consumed fd t ++ (full ++ rest) ≡ s
    → consumed fd (received fd chunk ∷ t) ++ (xs ++ rest) ≡ s
regroup fd chunk xs rest t p e =
    let same : (fd == fd) ≡ true = ground arith in
    rw (same, append_assoc) (cc (append_assoc chunk xs rest))

consumed_cons :
    {full seen : Bytes} (fd : ℕ) (chunk xs : Bytes) (t : Trace)
    → full ≡ chunk ++ xs
    → seen ≡ consumed fd (received fd chunk ∷ t) ++ xs
    → seen ≡ consumed fd t ++ full
consumed_cons fd chunk xs t p e =
    let same : (fd == fd) ≡ true = ground arith in
    rw (p, ← append_assoc (consumed fd t) chunk xs) (rw same at e)

read_some_ok :
    (os : Os) (fd n c : ℕ) (chunk : Bytes) (t : Trace)
    → os.read t fd n ≡ some (c ∷ chunk)
    → read_some os fd n t ≡ (ok (c ∷ chunk), received fd (c ∷ chunk) ∷ t)
unfolding read_some
read_some_ok os fd n c chunk t r = rw (r, read_some)

-- One round of the loop.
read_loop_step :
    {full : Bytes} (os : Os) (fuel fd n c : ℕ) (chunk xs : Bytes) (t t' : Trace)
    → 0 < n
    → os.read t fd n ≡ some (c ∷ chunk)
    → read_loop os fuel fd (n - length (c ∷ chunk)) (received fd (c ∷ chunk) ∷ t) ≡ (ok xs, t')
    → full ≡ (c ∷ chunk) ++ xs
    → read_loop os (suc fuel) fd n t ≡ (ok full, t')
unfolding read_loop
read_loop_step os fuel fd n c chunk xs t t' h r k p =
    ground (arith, read_some_ok os fd n c chunk t r)

module _ (os : Os) (fd : ℕ) (s : Bytes) (stream : Streams os fd s) where
  read_loop_lem :
      (fuel n : ℕ) (xs rest : Bytes) (t : Trace)
      → consumed fd t ++ (xs ++ rest) ≡ s
      → length xs ≡ n
      → n ≤ fuel
      → (t' : Trace) × (read_loop os fuel fd n t ≡ (ok xs, t'))
        × (consumed fd t' ≡ consumed fd t ++ xs)
  unfolding read_loop
  read_loop_lem zero n [] rest t e l h = (t, ground arith, sym (append-nil _))
  read_loop_lem zero n (x ∷ xs) rest t e l h = absurd (omega arith)
  read_loop_lem (suc fuel) n [] rest t e l h = (t, ground arith, sym (append-nil _))
  read_loop_lem (suc fuel) n (x ∷ xs) rest t e l h =
      let (c, chunk, left, r, short, cut) =
        stream.more t n (x ∷ xs ++ rest) e (omega arith) (cons-ne-nil x (xs ++ rest)) in
      let (xs', p, q) = front_of (c ∷ chunk) left (x ∷ xs) rest (sym cut) (omega arith) in
      let lens : length (x ∷ xs) ≡ length (c ∷ chunk) + length xs' =
        ap length p ∙ length-append (c ∷ chunk) xs' in
      let (t', done, seen) =
        read_loop_lem fuel (n - length (c ∷ chunk)) xs' rest (received fd (c ∷ chunk) ∷ t)
          (regroup fd (c ∷ chunk) xs' rest t p e) (omega arith) (omega arith) in
      (
        t',
        read_loop_step os fuel fd n c chunk xs' t t' (omega arith) r done p,
        consumed_cons fd (c ∷ chunk) xs' t p seen,
      )

  -- On a socket that carries the bytes `s`, of which the next ones are `xs`, `read_full` of as many bytes
  -- as `xs` has returns `xs` and takes no more off the socket, however the reads cut the stream.
  pub read_full_lem :
      (xs rest : Bytes) (t : Trace)
      → consumed fd t ++ (xs ++ rest) ≡ s
      → (t' : Trace) × (read_full os fd (length xs) t ≡ (ok xs, t'))
        × (consumed fd t' ≡ consumed fd t ++ xs)
  unfolding read_full
  read_full_lem xs rest t e = read_loop_lem (length xs) (length xs) xs rest t e refl (omega arith)
