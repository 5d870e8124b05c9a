-- ===== src/Os/Live.antt =====
-- What a trace leaves unreleased, and rules by which a program gives back what it takes.
use storefs.Prelude.{
  ℕ, ◌≡◌, Bool, true, false, ◌&&◌, List, [], ◌∷◌, Option, inl, inr, Option-cases, arith, ◌==◌,
  if◌then◌else◌,
}
use storefs.Os.{
  Resource, acquired, released, Trace, Error, Result, ok, err, Prog, Cmd, pure, fail, continue,
  taken, undoing, reporting, ◌>>=◌, when◌then◌else◌, or_else, report,
}

unfoldable pub kind : Resource → ℕ
kind (Resource.file _) = 0
kind (Resource.addresses _) = 1
kind (Resource.socket _) = 2
kind (Resource.block _) = 3
kind (Resource.mapping _) = 4
kind (Resource.devices _) = 5
kind (Resource.session _) = 6
kind (Resource.ctx _) = 7
kind (Resource.pd _) = 8
kind (Resource.cq _) = 9
kind (Resource.qp _) = 10
kind (Resource.mr _) = 11
kind (Resource.easy _) = 12
kind (Resource.slist _) = 13

unfoldable pub ident : Resource → ℕ
ident (Resource.file n) = n
ident (Resource.addresses n) = n
ident (Resource.socket n) = n
ident (Resource.block n) = n
ident (Resource.mapping n) = n
ident (Resource.devices n) = n
ident (Resource.session n) = n
ident (Resource.ctx n) = n
ident (Resource.pd n) = n
ident (Resource.cq n) = n
ident (Resource.qp n) = n
ident (Resource.mr n) = n
ident (Resource.easy n) = n
ident (Resource.slist n) = n

unfoldable pub same : Resource → Resource → Bool
unfolding kind ident
same a b = (kind a == kind b) && (ident a == ident b)

-- Takes the resource off the list, once.
unfoldable pub drop_first : Resource → List Resource → List Resource
unfolding same
drop_first r [] = []
drop_first r (x ∷ xs) = if same r x then xs else x ∷ drop_first r xs

unfoldable pub holds : Resource → List Resource → Bool
unfolding same
holds r [] = false
holds r (x ∷ xs) = if same r x then true else holds r xs

-- What was acquired and not yet released, the latest first.
unfoldable pub live : Trace → List Resource
unfolding drop_first
live [] = []
live (acquired r ∷ t) = r ∷ live t
live (released r ∷ t) = drop_first r (live t)
live (_ ∷ t) = live t

-- Nothing is released that is not held: there is no double release.
unfoldable pub sound : Trace → Bool
unfolding holds live
sound [] = true
sound (released r ∷ t) = holds r (live t) && sound t
sound (_ ∷ t) = sound t

-- The state of a program as these rules see it: what is live, with no wrong release so far.
abbrev pub Holds : List Resource → Trace → Type 0
Holds xs t = (live t ≡ xs) × (sound t ≡ true)

-- How a program ended: with a value and `Q`, or with an error and `E`.
pub data Outcome {S A : Type 0} (Q : A → S → Type 0) (E : S → Type 0) : Result A × S → Type 0 where
  good : {a : A} {s : S} → Q a s → Outcome Q E (ok a, s)
  bad : {e : Error} {s : S} → E s → Outcome Q E (err e, s)

-- From `P` the program ends with `Q`, or fails with `E`.
pub record Triple {S A : Type 0} (P : S → Type 0) (m : Prog S A) (Q : A → S → Type 0)
    (E : S → Type 0) : Type 0 where
  pub run : (s : S) → P s → Outcome Q E (m s)

-- The program leaves what is live as it is, however it ends.
pub record Neutral {A : Type 0} (m : Cmd A) : Type 0 where
  pub keeps : (xs : List Resource) (t : Trace) → Holds xs t → Holds xs (m t).1

pub after :
    {S A B : Type 0} {Q : A → S → Type 0} {R : B → S → Type 0} {E : S → Type 0} {p : Result A × S}
    (k : A → Prog S B)
    → Outcome Q E p
    → ((a : A) → Triple (Q a) (k a) R E)
    → Outcome R E (continue p k)
after k (good h) next = (next _).run _ h
after k (bad h) next = bad h

pub bind :
    {S A B : Type 0} {P : S → Type 0} {Q : A → S → Type 0} {R : B → S → Type 0} {E : S → Type 0}
    {m : Prog S A} {k : A → Prog S B}
    → Triple P m Q E
    → ((a : A) → Triple (Q a) (k a) R E)
    → Triple P (m >>= k) R E
bind {k} hm hk = record { run = λ s p. after k (hm.run s p) hk }

after_kept :
    {A B : Type 0} (p : Result A × Trace) (k : A → Cmd B) (xs : List Resource)
    → Holds xs p.1
    → ((a : A) → Neutral (k a))
    → Holds xs (continue p k).1
after_kept (ok a, t) k xs h next = (next a).keeps xs t h
after_kept (err e, t) k xs h next = h

pub Neutral-bind :
    {A B : Type 0} {m : Cmd A} {k : A → Cmd B}
    → Neutral m
    → ((a : A) → Neutral (k a))
    → Neutral (m >>= k)
Neutral-bind {m} {k} hm hk = record { keeps = λ xs t h. after_kept (m t) k xs (hm.keeps xs t h) hk }

pub Neutral-pure : {A : Type 0} (a : A) → Neutral {A = A} (pure a)
Neutral-pure a = record { keeps = λ xs t h. h }

pub Neutral-fail : {A : Type 0} (e : Error) → Neutral {A = A} (fail e)
Neutral-fail e = record { keeps = λ xs t h. h }

pub Neutral-when :
    {A : Type 0} {m n : Cmd A} (b : Bool) → Neutral m → Neutral n → Neutral (when b then m else n)
Neutral-when true hm hn = hm
Neutral-when false hm hn = hn

neutral_report :
    {A : Type 0} (e : Error) (p : Result A × Trace) (xs : List Resource)
    → Holds xs p.1
    → Holds xs (reporting e p).1
neutral_report e (ok a, t) xs h = h
neutral_report e (err _, t) xs h = h

pub Neutral-report : {A : Type 0} {m : Cmd A} (e : Error) → Neutral m → Neutral (report e m)
Neutral-report {m} e hm = record { keeps = λ xs t h. neutral_report e (m t) xs (hm.keeps xs t h) }

undone :
    {A : Type 0} {E : Trace → Type 0} (p : Result A × Trace) (undo : Cmd (Unit {0}))
    (xs : List Resource)
    → Holds xs p.1
    → ((t : Trace) → Holds xs t → E (undo t).1)
    → Outcome (λ _. Holds xs) E (undoing undo p)
undone (ok a, t) undo xs h back = good h
undone (err e, t) undo xs h back = bad (back t h)

-- A neutral part, and what is done when it fails.
pub Triple-or_else :
    {A : Type 0} {m : Cmd A} {E : Trace → Type 0} (undo : Cmd (Unit {0})) (xs : List Resource)
    → Neutral m
    → ((t : Trace) → Holds xs t → E (undo t).1)
    → Triple (Holds xs) (or_else m undo) (λ _. Holds xs) E
Triple-or_else {m} undo xs hm back = record {
  run = λ t h. undone (m t) undo xs (hm.keeps xs t h) back;
}

ended_either_way :
    {A : Type 0} (p : Result A × Trace) (xs : List Resource)
    → Holds xs p.1
    → Outcome (λ _. Holds xs) (Holds xs) p
ended_either_way (ok a, t) xs h = good h
ended_either_way (err e, t) xs h = bad h

pub Triple-Neutral :
    {A : Type 0} {m : Cmd A} (xs : List Resource)
    → Neutral m
    → Triple (Holds xs) m (λ _. Holds xs) (Holds xs)
Triple-Neutral {m} xs hm = record { run = λ t h. ended_either_way (m t) xs (hm.keeps xs t h) }

-- A call that gives a resource or fails.
pub taken_lem :
    (r : ℕ → Resource) (e : Error) (call : Trace → Option ℕ) (xs : List Resource)
    → Triple (Holds xs) (λ t. taken r e (call t) t) (λ x. Holds (r x ∷ xs)) (Holds xs)
unfolding live sound
taken_lem r e call xs = record {
  run = λ t h. elim (Option-cases (call t)) [
    | inl none_there ↦ rw none_there (bad h)
    | inr (x, there) ↦ rw there (good (ground arith))
  ];
}
