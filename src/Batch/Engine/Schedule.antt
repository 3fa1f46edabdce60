-- ===== src/Batch/Engine/Schedule.antt =====
-- The orders in which several workers can come to act on the jobs of their buckets.
use launch_code.Prelude.{
  ℕ, zero, suc, ◌+◌, ◌%◌, ◌≤◌, ◌<◌, ◌≡◌, refl, sym, Bool, Bool-cases, true, false, List, [], ◌∷◌,
  length, All, keep, ◌==◌, ◌&&◌, leb, ltb, arith, ◌⊎◌, inl, inr, if◌then◌else◌,
}
use launch_code.Batch.Engine.{Job, bucket, buckets_from, buckets}

-- A worker takes the first job of its bucket.
pub data Takes : List (List Job) → Job → List (List Job) → Type 0 where
  here : {job : Job} {b : List Job} {bs : List (List Job)} → Takes ((job ∷ b) ∷ bs) job (b ∷ bs)
  there :
      {job : Job} {b : List Job} {bs cs : List (List Job)}
      → Takes bs job cs
      → Takes (b ∷ bs) job (b ∷ cs)

-- The orders in which workers can do the jobs of their buckets.
pub data Merge : List (List Job) → List Job → Type 0 where
  done : {bs : List (List Job)} → All (λ b. b ≡ []) bs → Merge bs []
  step :
      {bs cs : List (List Job)} {job : Job} {jobs : List Job}
      → Takes bs job cs
      → Merge cs jobs
      → Merge bs (job ∷ jobs)

abbrev pub Has : ℕ → List Job → Type 0
Has i [] = ⊥
Has i (job ∷ jobs) = (job.0 ≡ i) ⊎ Has i jobs

abbrev HasIn : ℕ → List (List Job) → Type 0
HasIn i [] = ⊥
HasIn i (b ∷ bs) = Has i b ⊎ HasIn i bs

unfoldable pub total : List (List Job) → ℕ
total [] = 0
total (b ∷ bs) = length b + total bs

module _ (P : Job → Type 0) where
  Takes-All :
      {bs cs : List (List Job)} {job : Job}
      → Takes bs job cs
      → All (All P) bs
      → P job × All (All P) cs
  Takes-All here h = (h.0.0, (h.0.1, h.1))
  Takes-All (there t) h = let (p, q) = Takes-All t h.1 in (p, (h.0, q))

  pub Merge-All :
      {bs : List (List Job)} {order : List Job} → Merge bs order → All (All P) bs → All P order
  Merge-All (done empty) h = tt
  Merge-All (step t m) h = let (p, q) = Takes-All t h in (p, Merge-All m q)

  keep-All : (p : Job → Bool) (jobs : List Job) → All P jobs → All P (keep p jobs)
  unfolding keep
  keep-All p [] h = tt
  keep-All p (job ∷ jobs) h = by_test (p job) (keep-All p jobs h.1)
    where
      by_test :
          (b : Bool) → All P (keep p jobs) → All P (if b then job ∷ keep p jobs else keep p jobs)
      by_test true rest = (h.0, rest)
      by_test false rest = rest

  pub buckets_from-All :
      (workers n w : ℕ) (jobs : List Job) → All P jobs → All (All P) (buckets_from workers n w jobs)
  unfolding buckets_from bucket
  buckets_from-All workers zero w jobs h = tt
  buckets_from-All workers (suc n) w jobs h =
      (keep-All (λ job. job.0 % workers == w) jobs h, buckets_from-All workers n (w + 1) jobs h)

Takes-Has :
    {bs cs : List (List Job)} {job : Job} (i : ℕ)
    → Takes bs job cs
    → HasIn i bs
    → (job.0 ≡ i) ⊎ HasIn i cs
Takes-Has i here (inl (inl e)) = inl e
Takes-Has i here (inl (inr h)) = inr (inl h)
Takes-Has i here (inr h) = inr (inr h)
Takes-Has i (there t) (inl h) = inr (inl h)
Takes-Has i (there t) (inr h) = elim (Takes-Has i t h) [ inl e ↦ inl e | inr k ↦ inr (inr k) ]

none_left : (i : ℕ) (bs : List (List Job)) → All (λ b. b ≡ []) bs → HasIn i bs → ⊥
none_left i [] h k = k
none_left i ([] ∷ bs) h (inl k) = k
none_left i ((job ∷ b) ∷ bs) h (inl k) = cc
none_left i (b ∷ bs) h (inr k) = none_left i bs h.1 k

pub Merge-Has :
    {bs : List (List Job)} {order : List Job} (i : ℕ) → Merge bs order → HasIn i bs → Has i order
Merge-Has {bs} i (done empty) h = none_left i bs empty h
Merge-Has i (step t m) h = elim (Takes-Has i t h) [ inl e ↦ inl e | inr k ↦ inr (Merge-Has i m k) ]

keep-Has :
    (workers w i : ℕ) (jobs : List Job)
    → i % workers ≡ w
    → Has i jobs
    → Has i (bucket workers w jobs)
unfolding bucket keep
keep-Has workers w i [] e h = elim h [ ]
keep-Has workers w i (job ∷ jobs) e h =
    by_test (job.0 % workers == w) refl h (λ k. keep-Has workers w i jobs e k)
  where
    by_test :
        (b : Bool)
        → (job.0 % workers == w) ≡ b
        → Has i (job ∷ jobs)
        → (Has i jobs → Has i (bucket workers w jobs))
        → Has i (if b then job ∷ bucket workers w jobs else bucket workers w jobs)
    by_test true k (inl same) rest = inl same
    by_test true k (inr later) rest = inr (rest later)
    by_test false k (inl same) rest = absurd (grind (arith, k, same, e))
    by_test false k (inr later) rest = rest later

pub buckets_from-Has :
    (workers n w i : ℕ) (jobs : List Job)
    → w ≤ i % workers
    → i % workers < w + n
    → Has i jobs
    → HasIn i (buckets_from workers n w jobs)
unfolding buckets_from
buckets_from-Has workers zero w i jobs lo hi h = absurd (omega (arith, lo, hi))
buckets_from-Has workers (suc n) w i jobs lo hi h = elim (Bool-cases (i % workers == w)) [
  | inl e ↦ inl (keep-Has workers w i jobs (ground (arith, e)) h)
  | inr e ↦
      inr (buckets_from-Has workers n (w + 1) i jobs (ground (arith, e, lo)) (omega (arith, hi)) h)
]

Takes-total : {bs cs : List (List Job)} {job : Job} → Takes bs job cs → total bs ≡ suc (total cs)
unfolding total
Takes-total here = omega arith
Takes-total (there t) = omega (arith, Takes-total t)

none_left-total : (bs : List (List Job)) → All (λ b. b ≡ []) bs → total bs ≡ 0
unfolding total
none_left-total [] h = refl
none_left-total ([] ∷ bs) h = omega (arith, none_left-total bs h.1)
none_left-total ((job ∷ b) ∷ bs) h = cc

pub Merge-length :
    {bs : List (List Job)} {order : List Job} → Merge bs order → length order ≡ total bs
Merge-length {bs} (done empty) = sym (none_left-total bs empty)
Merge-length (step t m) = omega (arith, Takes-total t, Merge-length m)

total-buckets_from :
    (workers n w : ℕ) (job : Job) (jobs : List Job)
    → total (buckets_from workers n w (job ∷ jobs))
      ≡ (if leb w (job.0 % workers) && ltb (job.0 % workers) (w + n) then 1 else 0)
        + total (buckets_from workers n w jobs)
unfolding total buckets_from bucket keep
total-buckets_from workers zero w job jobs = ground arith
total-buckets_from workers (suc n) w job jobs =
    ground (arith, total-buckets_from workers n (w + 1) job jobs)

no_jobs-total : (workers n w : ℕ) → total (buckets_from workers n w []) ≡ 0
unfolding total buckets_from bucket keep
no_jobs-total workers zero w = refl
no_jobs-total workers (suc n) w = omega (arith, no_jobs-total workers n (w + 1))

pub total-buckets :
    (workers : ℕ) (jobs : List Job) → 0 < workers → total (buckets workers jobs) ≡ length jobs
unfolding buckets
total-buckets workers [] h = no_jobs-total workers workers 0
total-buckets workers (job ∷ jobs) h =
    ground (arith, total-buckets workers jobs h, total-buckets_from workers workers 0 job jobs, h)
