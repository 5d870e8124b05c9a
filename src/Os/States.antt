-- ===== src/Os/States.antt =====
-- The states that a program asks a queue pair to change to.
use storefs.Prelude.{◌≡◌, List, [], ◌∷◌}
use storefs.Os.{QpState, modified, Trace, Result, ok, err, Cmd, report, reporting, Error}
use storefs.Os.Live.{Outcome, good, bad, Triple}

-- The latest first.
unfoldable pub states : Trace → List QpState
states [] = []
states (modified qp attr mask ∷ t) = attr.qp_state ∷ states t
states (_ ∷ t) = states t

abbrev pub States : List QpState → Trace → Type 0
States ss t = states t ≡ ss

-- A part that asks for no change, however it ends.
abbrev pub Still : {A : Type 0} → List QpState → Cmd A → Type 0
Still {A} ss m = Triple {A = A} (States ss) m (λ _. States ss) (States ss)

reported :
    {A : Type 0} {ss : List QpState} (e : Error) (p : Result A × Trace)
    → Outcome (λ _. States ss) (States ss) p
    → Outcome (λ _. States ss) (States ss) (reporting e p)
reported e p (good h) = good h
reported e p (bad h) = bad h

pub report_lem :
    {A : Type 0} {ss : List QpState} {m : Cmd A} (e : Error) → Still ss m → Still ss (report e m)
report_lem {m} e hm = record { run = λ t h. reported e (m t) (hm.run t h) }

either_way :
    {A : Type 0} {ss : List QpState} (p : Result A × Trace)
    → States ss p.1
    → Outcome (λ _. States ss) (States ss) p
either_way (ok a, t) h = good h
either_way (err e, t) h = bad h

pub still_lem :
    {A : Type 0} {ss : List QpState} (m : Cmd A)
    → ((t : Trace) → States ss t → States ss (m t).1)
    → Still ss m
still_lem m h = record { run = λ t k. either_way (m t) (h t k) }
