-- ===== src/Batch/Engine/Slots.antt =====
-- The rows that workers produce, put into their places.
use mathlib.Core.Path.{subst}
use launch_code.Prelude.{
  ℕ, zero, suc, ◌+◌, ◌-◌, ◌≤◌, ◌<◌, ◌≡◌, ◌==◌, refl, sym, ap, Bool-cases, Option, none, some, List,
  [], ◌∷◌, length, All, arith, ◌⊎◌, inl, inr,
}
use launch_code.Prelude.Io.{Io}
use launch_code.Text.{Text}
use launch_code.Error.{AppError}
use launch_code.Model.{SessionRecord}
use launch_code.Batch.{BatchSessionRow}
use launch_code.Batch.Engine.{
  Job, Link, enumerate_from, set_slot, no_rows, fill_slots, flatten, after_job, run_jobs,
}
use launch_code.Batch.Engine.Limited.{Describes, Prefix, batch_row-Describes}
use launch_code.Batch.Engine.Schedule.{Has}

abbrev pub nth : {A : Type 0} → ℕ → List A → Option A
nth i [] = none
nth zero (a ∷ rest) = some a
nth (suc i) (a ∷ rest) = nth i rest

-- A job bears the place of its session.
abbrev pub Placed : ℕ → List SessionRecord → Job → Type 0
Placed k sessions job = (k ≤ job.0) × (nth (job.0 - k) sessions ≡ some job.1)

Placed-later :
    (k : ℕ) (session : SessionRecord) (sessions : List SessionRecord) (jobs : List Job)
    → All (Placed (k + 1) sessions) jobs
    → All (Placed k (session ∷ sessions)) jobs
Placed-later k session sessions [] h = tt
Placed-later k session sessions (job ∷ jobs) h = (
  (omega (arith, h.0.0), later (job.0 - k) (omega (arith, h.0.0)) h.0.1),
  Placed-later k session sessions jobs h.1,
)
  where
    later :
        (i : ℕ)
        → i ≡ suc (job.0 - (k + 1))
        → nth (job.0 - (k + 1)) sessions ≡ some job.1
        → nth i (session ∷ sessions) ≡ some job.1
    later i e p = rw e p

pub enumerate_from-Placed :
    (k : ℕ) (sessions : List SessionRecord) → All (Placed k sessions) (enumerate_from k sessions)
unfolding enumerate_from
enumerate_from-Placed k [] = tt
enumerate_from-Placed k (s ∷ ss) = (
  (omega arith, ground arith),
  Placed-later k s ss (enumerate_from (k + 1) ss) (enumerate_from-Placed (k + 1) ss),
)

pub enumerate_from-Has :
    (k i : ℕ) (sessions : List SessionRecord)
    → k ≤ i
    → i < k + length sessions
    → Has i (enumerate_from k sessions)
unfolding enumerate_from
enumerate_from-Has k i [] lo hi = absurd (omega (arith, lo, hi))
enumerate_from-Has k i (s ∷ ss) lo hi = elim (Bool-cases (k == i)) [
  | inl e ↦ inl (ground (arith, e))
  | inr e ↦ inr (enumerate_from-Has (k + 1) i ss (ground (arith, e, lo)) (omega (arith, hi)))
]

pub length-enumerate_from :
    (k : ℕ) (sessions : List SessionRecord) → length (enumerate_from k sessions) ≡ length sessions
unfolding enumerate_from
length-enumerate_from k [] = refl
length-enumerate_from k (s ∷ ss) = ap suc (length-enumerate_from (k + 1) ss)

-- The rows of some jobs.
abbrev pub Produced : List Job → List (ℕ × BatchSessionRow) → Type 0
Produced [] [] = Unit
Produced [] (p ∷ ps) = ⊥
Produced (job ∷ jobs) [] = ⊥
Produced (job ∷ jobs) (p ∷ ps) = (p.0 ≡ job.0) × Describes job.1 p.1 × Produced jobs ps

module _ {W : Type 0} (display : AppError → Text) (act : Text → Io W AppError SessionRecord)
    (link : Link) where
  pub run_jobs-Produced :
      (jobs : List Job) (w : W) → Produced jobs (run_jobs display act link jobs w).0.0
  unfolding run_jobs after_job
  run_jobs-Produced [] w = tt
  run_jobs-Produced ((i, s) ∷ jobs) w = (
    refl,
    batch_row-Describes display link s (act s.id w).0,
    run_jobs-Produced jobs (act s.id w).1,
  )

abbrev pub Filled : {A : Type 0} → ℕ → List (Option A) → Type 0
Filled i [] = ⊥
Filled zero (none ∷ slots) = ⊥
Filled zero (some a ∷ slots) = Unit
Filled (suc i) (slot ∷ slots) = Filled i slots

-- Every slot is empty or has the row of its session.
abbrev pub Aligned : List SessionRecord → List (Option BatchSessionRow) → Type 0
Aligned [] [] = Unit
Aligned [] (slot ∷ slots) = ⊥
Aligned (s ∷ ss) [] = ⊥
Aligned (s ∷ ss) (none ∷ slots) = Aligned ss slots
Aligned (s ∷ ss) (some row ∷ slots) = Describes s row × Aligned ss slots

abbrev Matches : Option SessionRecord → BatchSessionRow → Type 0
Matches none row = ⊥
Matches (some s) row = Describes s row

Matches-some :
    (t s : SessionRecord) (row : BatchSessionRow)
    → ◌≡◌ {A = Option SessionRecord} (some t) (some s)
    → Describes s row
    → Describes t row
Matches-some t s row e d = subst (λ o. Matches o row) (sym e) d

length-set_slot :
    {A : Type 0} (i : ℕ) (a : A) (slots : List (Option A))
    → length (set_slot i a slots) ≡ length slots
unfolding set_slot
length-set_slot i a [] = refl
length-set_slot zero a (slot ∷ slots) = refl
length-set_slot (suc i) a (slot ∷ slots) = ap suc (length-set_slot i a slots)

set_slot-Aligned :
    (i : ℕ) (s : SessionRecord) (row : BatchSessionRow) (sessions : List SessionRecord)
    (slots : List (Option BatchSessionRow))
    → nth i sessions ≡ some s
    → Describes s row
    → Aligned sessions slots
    → Aligned sessions (set_slot i row slots)
unfolding set_slot
set_slot-Aligned i s row [] slots e d h = cc
set_slot-Aligned i s row (t ∷ ss) [] e d h = elim h [ ]
set_slot-Aligned zero s row (t ∷ ss) (none ∷ slots) e d h = (Matches-some t s row e d, h)
set_slot-Aligned zero s row (t ∷ ss) (some old ∷ slots) e d h = (Matches-some t s row e d, h.1)
set_slot-Aligned (suc i) s row (t ∷ ss) (none ∷ slots) e d h =
    set_slot-Aligned i s row ss slots e d h
set_slot-Aligned (suc i) s row (t ∷ ss) (some old ∷ slots) e d h =
    (h.0, set_slot-Aligned i s row ss slots e d h.1)

set_slot-Filled :
    {A : Type 0} (i j : ℕ) (a : A) (slots : List (Option A))
    → Filled i slots
    → Filled i (set_slot j a slots)
unfolding set_slot
set_slot-Filled i j a [] h = h
set_slot-Filled zero zero a (none ∷ slots) h = tt
set_slot-Filled zero zero a (some b ∷ slots) h = tt
set_slot-Filled (suc i) zero a (slot ∷ slots) h = h
set_slot-Filled zero (suc j) a (none ∷ slots) h = h
set_slot-Filled zero (suc j) a (some b ∷ slots) h = h
set_slot-Filled (suc i) (suc j) a (slot ∷ slots) h = set_slot-Filled i j a slots h

set_slot-fills :
    {A : Type 0} (i : ℕ) (a : A) (slots : List (Option A))
    → i < length slots
    → Filled i (set_slot i a slots)
unfolding set_slot
set_slot-fills i a [] h = absurd (omega (arith, h))
set_slot-fills zero a (slot ∷ slots) h = tt
set_slot-fills (suc i) a (slot ∷ slots) h = set_slot-fills i a slots (omega (arith, h))

pub Aligned-length :
    (sessions : List SessionRecord) (slots : List (Option BatchSessionRow))
    → Aligned sessions slots
    → length slots ≡ length sessions
Aligned-length [] [] h = refl
Aligned-length [] (slot ∷ slots) h = elim h [ ]
Aligned-length (s ∷ ss) [] h = elim h [ ]
Aligned-length (s ∷ ss) (none ∷ slots) h = ap suc (Aligned-length ss slots h)
Aligned-length (s ∷ ss) (some row ∷ slots) h = ap suc (Aligned-length ss slots h.1)

pub no_rows-Aligned : (sessions : List SessionRecord) → Aligned sessions (no_rows (length sessions))
unfolding no_rows
no_rows-Aligned [] = tt
no_rows-Aligned (s ∷ ss) = no_rows-Aligned ss

pub fill_slots-Aligned :
    (sessions : List SessionRecord) (jobs : List Job) (ps : List (ℕ × BatchSessionRow))
    (slots : List (Option BatchSessionRow))
    → Produced jobs ps
    → All (Placed 0 sessions) jobs
    → Aligned sessions slots
    → Aligned sessions (fill_slots ps slots)
unfolding fill_slots
fill_slots-Aligned sessions [] [] slots p placed h = h
fill_slots-Aligned sessions [] (q ∷ ps) slots p placed h = elim p [ ]
fill_slots-Aligned sessions (job ∷ jobs) [] slots p placed h = elim p [ ]
fill_slots-Aligned sessions (job ∷ jobs) ((i, row) ∷ ps) slots p placed h =
    fill_slots-Aligned sessions jobs ps (set_slot i row slots) p.2 placed.1 (
      set_slot-Aligned i job.1 row sessions slots
        (subst (λ n. nth n sessions ≡ some job.1) (omega (arith, p.0)) placed.0.1) p.1 h)

pub fill_slots-Filled :
    (i : ℕ) (sessions : List SessionRecord) (jobs : List Job) (ps : List (ℕ × BatchSessionRow))
    (slots : List (Option BatchSessionRow))
    → i < length slots
    → Produced jobs ps
    → Has i jobs ⊎ Filled i slots
    → Filled i (fill_slots ps slots)
unfolding fill_slots
fill_slots-Filled i sessions [] [] slots room p (inr h) = h
fill_slots-Filled i sessions [] [] slots room p (inl h) = elim h [ ]
fill_slots-Filled i sessions [] (q ∷ ps) slots room p h = elim p [ ]
fill_slots-Filled i sessions (job ∷ jobs) [] slots room p h = elim p [ ]
fill_slots-Filled i sessions (job ∷ jobs) ((j, row) ∷ ps) slots room p (inl (inl e)) =
    fill_slots-Filled i sessions jobs ps (set_slot j row slots)
      (omega (arith, room, length-set_slot j row slots)) p.2
      (inr (
        subst (λ n. Filled i (set_slot n row slots)) (omega (arith, p.0, e))
          (set_slot-fills i row slots room)))
fill_slots-Filled i sessions (job ∷ jobs) ((j, row) ∷ ps) slots room p (inl (inr h)) =
    fill_slots-Filled i sessions jobs ps (set_slot j row slots)
      (omega (arith, room, length-set_slot j row slots)) p.2 (inl h)
fill_slots-Filled i sessions (job ∷ jobs) ((j, row) ∷ ps) slots room p (inr h) =
    fill_slots-Filled i sessions jobs ps (set_slot j row slots)
      (omega (arith, room, length-set_slot j row slots)) p.2 (inr (set_slot-Filled i j row slots h))

pub flatten-Prefix :
    (sessions : List SessionRecord) (slots : List (Option BatchSessionRow))
    → Aligned sessions slots
    → ((i : ℕ) → i < length sessions → Filled i slots)
    → Prefix sessions (flatten slots) × (length (flatten slots) ≡ length sessions)
unfolding flatten
flatten-Prefix [] [] h full = (tt, refl)
flatten-Prefix [] (slot ∷ slots) h full = elim h [ ]
flatten-Prefix (s ∷ ss) [] h full = elim h [ ]
flatten-Prefix (s ∷ ss) (none ∷ slots) h full = elim (full 0 (omega arith)) [ ]
flatten-Prefix (s ∷ ss) (some row ∷ slots) h full =
    let (p, e) = flatten-Prefix ss slots h.1 (λ i lt. full (suc i) (omega (arith, lt))) in
    ((h.0, p), ap suc e)
