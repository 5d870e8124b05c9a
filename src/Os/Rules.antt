-- ===== src/Os/Rules.antt =====
-- Rules by which the parts of a program make up the whole, for what a program holds.
use storefs.Prelude.{ap, ℕ, ◌≡◌, refl, Bool, true, false, List, ◌∷◌, arith, if◌then◌else◌}
use storefs.Prelude.Text.{Bytes}
use storefs.Os.{
  Resource, acquired, released, requested, loaded, saved, Request, Trace, Error, Result, ok, err,
  Prog, Cmd, emit, pure, fail, ask, attempt, outcome, continue, undoing, or_else, when◌then◌else◌,
  ◌>>=◌, ◌>>◌,
}
use storefs.Os.Live.{
  kind, ident, same, live, sound, drop_first, holds, Holds, Outcome, good, bad, Triple, after,
}

-- A program that leaves what is held as it is, however it ends.
abbrev pub Kept : {A : Type 0} → List Resource → Cmd A → Type 0
Kept {A} xs m = Triple {A = A} (Holds xs) m (λ _. Holds xs) (Holds xs)

same_self : (r : Resource) → same r r ≡ true
unfolding same kind ident
same_self (Resource.file n) = ground arith
same_self (Resource.addresses n) = ground arith
same_self (Resource.socket n) = ground arith
same_self (Resource.block n) = ground arith
same_self (Resource.mapping n) = ground arith
same_self (Resource.devices n) = ground arith
same_self (Resource.session n) = ground arith
same_self (Resource.ctx n) = ground arith
same_self (Resource.pd n) = ground arith
same_self (Resource.cq n) = ground arith
same_self (Resource.qp n) = ground arith
same_self (Resource.mr n) = ground arith
same_self (Resource.easy n) = ground arith
same_self (Resource.slist n) = ground arith

released_first :
    (r : Resource) (xs : List Resource) (t : Trace) → Holds (r ∷ xs) t → Holds xs (released r ∷ t)
unfolding live sound drop_first holds
released_first r xs t (e, s) =
    (rw (e, drop_first, same_self r) refl, rw (s, e, holds, same_self r) refl)

pub acquire_lem :
    {E : Trace → Type 0} (r : Resource) (xs : List Resource)
    → Triple (Holds xs) (emit (acquired r)) (λ _. Holds (r ∷ xs)) E
unfolding live sound
acquire_lem r xs = record { run = λ t (e, s). good (ap (λ ys. r ∷ ys) e, s) }

pub release_lem :
    {E : Trace → Type 0} (r : Resource) (xs : List Resource)
    → Triple (Holds (r ∷ xs)) (emit (released r)) (λ _. Holds xs) E
release_lem r xs = record { run = λ t h. good (released_first r xs t h) }

-- An event that takes nothing and gives nothing back.
pub requested_lem :
    {E : Trace → Type 0} (req : Request) (xs : List Resource)
    → Triple (Holds xs) (emit (requested req)) (λ _. Holds xs) E
unfolding live sound
requested_lem req xs = record { run = λ t h. good h }

pub loaded_lem :
    {E : Trace → Type 0} (a : ℕ) (s : Bytes) (xs : List Resource)
    → Triple (Holds xs) (emit (loaded a s)) (λ _. Holds xs) E
unfolding live sound
loaded_lem a s xs = record { run = λ t h. good h }

pub saved_lem :
    {E : Trace → Type 0} (a : ℕ) (s : Bytes) (xs : List Resource)
    → Triple (Holds xs) (emit (saved a s)) (λ _. Holds xs) E
unfolding live sound
saved_lem a s xs = record { run = λ t h. good h }

pub ask_lem : {A : Type 0} {P E : Trace → Type 0} (f : Trace → A) → Triple P (ask f) (λ _. P) E
ask_lem f = record { run = λ t h. good h }

pub pure_lem :
    {S A : Type 0} {Q : A → S → Type 0} {E : S → Type 0} (a : A) → Triple (Q a) (pure a) Q E
pure_lem a = record { run = λ s h. good h }

pub fail_lem :
    {S A : Type 0} {Q : A → S → Type 0} {E : S → Type 0} (e : Error) → Triple E (fail e) Q E
fail_lem e = record { run = λ s h. bad h }

-- An outcome that may be either.
pub outcome_lem : {S A : Type 0} {P : S → Type 0} (r : Result A) → Triple P (outcome r) (λ _. P) P
outcome_lem (ok a) = record { run = λ s h. good h }
outcome_lem (err e) = record { run = λ s h. bad h }

pub when_lem :
    {S A : Type 0} {P : S → Type 0} {Q : A → S → Type 0} {E : S → Type 0} {m n : Prog S A}
    (b : Bool)
    → Triple P m Q E
    → Triple P n Q E
    → Triple P (when b then m else n) Q E
when_lem true hm hn = hm
when_lem false hm hn = hn

pub ended : {S A : Type 0} {E : S → Type 0} {p : Result A × S} → Outcome (λ _. E) E p → E p.1
ended (good h) = h
ended (bad h) = h

undo_done :
    {S A : Type 0} {Q : A → S → Type 0} {E E' : S → Type 0} {undo : Prog S (Unit {0})}
    {p : Result A × S}
    → Outcome Q E p
    → Triple E undo (λ _. E') E'
    → Outcome Q E' (undoing undo p)
undo_done (good h) back = good h
undo_done (bad {s} h) back = bad (ended (back.run s h))

pub or_else_lem :
    {S A : Type 0} {P : S → Type 0} {Q : A → S → Type 0} {E E' : S → Type 0} {m : Prog S A}
    {undo : Prog S (Unit {0})}
    → Triple P m Q E
    → Triple E undo (λ _. E') E'
    → Triple P (or_else m undo) Q E'
or_else_lem hm back = record { run = λ s p. undo_done (hm.run s p) back }

finished :
    {S A : Type 0} {Q Q' : A → S → Type 0} {E E' : S → Type 0} {last : Prog S (Unit {0})}
    {p : Result A × S}
    → Outcome Q E p
    → ((a : A) → Triple (Q a) last (λ _. Q' a) E')
    → Triple E last (λ _. E') E'
    → Outcome Q' E' (continue (last p.1) (λ _. outcome p.0))
finished (good {a} {s} h) then_ok then_bad =
    after (λ _. outcome (ok a)) ((then_ok a).run s h) (λ _. record { run = λ s h. good h })
finished (bad {e} {s} h) then_ok then_bad =
    after (λ _. outcome (err e)) (then_bad.run s h) (λ _. record { run = λ s h. bad h })

-- What is done at the end, however the part before it ended.
pub finally_lem :
    {S A : Type 0} {P : S → Type 0} {Q Q' : A → S → Type 0} {E E' : S → Type 0} {m : Prog S A}
    {last : Prog S (Unit {0})}
    → Triple P m Q E
    → ((a : A) → Triple (Q a) last (λ _. Q' a) E')
    → Triple E last (λ _. E') E'
    → Triple P (do r ← attempt m; last; outcome r) Q' E'
finally_lem hm then_ok then_bad = record { run = λ s p. finished (hm.run s p) then_ok then_bad }

-- A part whose outcome does not matter.
pub attempted_lem :
    {S A : Type 0} {P E : S → Type 0} {m : Prog S A}
    → Triple P m (λ _. P) P
    → Triple P (attempt m) (λ _. P) E
attempted_lem hm = record { run = λ s p. good (ended (hm.run s p)) }
