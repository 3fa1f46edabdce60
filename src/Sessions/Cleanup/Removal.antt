-- ===== src/Sessions/Cleanup/Removal.antt =====
-- Which sessions a cleanup leaves.
use mathlib.Core.Path.{subst}
use launch_code.Prelude.{
  sym, ◌≡◌, ◌↔◌, refl, ℕ, Bool, Option, none, some, List, [], ◌∷◌, ok, arith, true, false, length,
  if◌then◌else◌,
}
use launch_code.Prelude.Io.{after_ok, pure-eq-ok}
use launch_code.Text
use launch_code.Text.{Text, mem}
use launch_code.Map
use launch_code.Map.{Map}
use launch_code.Map.Merge.{IsDistinct}
use launch_code.Map.Ordered.{IsSorted, insert-IsSorted, IsSorted-IsDistinct}
use launch_code.Model.{AppState, SessionRecord, SessionStatus}
use launch_code.Sessions.{Machine}
use launch_code.Sessions.Reconcile.{reconcile_session, reconcile_found, reconcile_ids}
use launch_code.Sessions.Cleanup.{
  SessionCleanupResult, matches, matched_ids, prune_entry, remove_sessions, remove_matched,
  cleanup_mutation,
}

get-remove_all :
    (id : Text) (ids : List Text) (m : Map SessionRecord)
    → Map.get id (Map.remove_all ids m) ≡ (if mem id ids then none else Map.get id m)
unfolding Map.remove_all mem
get-remove_all id [] m = refl
get-remove_all id (k ∷ ids) m = ground (
  arith,
  get-remove_all id ids (Map.remove k m),
  Map.get-remove k id m,
  Text.eq_iff k id,
  Text.eq_iff id k,
)

abbrev pub passes : (SessionRecord → Bool) → Option SessionRecord → Bool
passes p none = false
passes p (some session) = p session

mem-matched_ids :
    (p : SessionRecord → Bool) (id : Text) (m : Map SessionRecord)
    → IsDistinct m
    → mem id (matched_ids p m) ≡ passes p (Map.get id m)
unfolding Map.get mem matched_ids
mem-matched_ids p id [] d = refl
mem-matched_ids p id ((k, s) ∷ m) d =
    ground (arith, Text.eq_iff k id, Text.eq_iff id k, mem-matched_ids p id m d.1, d.0)

passes_iff :
    (p : SessionRecord → Bool) (o : Option SessionRecord)
    → (passes p o ≡ true) ↔ ((session : SessionRecord) × (o ≡ some session) × (p session ≡ true))
passes_iff p none = (λ h. cc, λ (t, e, h). cc e)
passes_iff p (some s) = (λ h. (s, refl, h), λ (t, e, h). let q : s ≡ t = cc e in cc (h, q))

left_iff :
    (p : SessionRecord → Bool) (o : Option SessionRecord) (session : SessionRecord)
    → ((if passes p o then none else o) ≡ some session) ↔ ((o ≡ some session) × (p session ≡ false))
left_iff p none session = (λ h. cc, λ h. cc h.0)
left_iff p (some s) session = by_test (p s) refl
  where
    by_test :
        (b : Bool)
        → p s ≡ b
        → ((if b then none else some s) ≡ some session)
          ↔ ((some s ≡ some session) × (p session ≡ false))
    by_test true e = (λ h. cc, λ (f, h). let q : s ≡ session = cc f in cc (e, h, q))
    by_test false e = (λ h. let q : s ≡ session = cc h in (h, cc (e, q)), λ h. h.0)

module _ (machine : Machine) where
  open machine use {Os, clock}

  remove_sessions-eq-ok :
      (ids : List Text) (m : Map SessionRecord) (os : Os) {m' : Map SessionRecord} {os' : Os}
      → remove_sessions machine ids m os ≡ (ok m', os')
      → m' ≡ Map.remove_all ids m
  unfolding remove_sessions Map.remove_all
  remove_sessions-eq-ok [] m os h = sym (pure-eq-ok h).0
  remove_sessions-eq-ok (id ∷ ids) m os h =
      after_ok (prune_entry machine (Map.get id m)) _ os h
        λ _ os₁ _ h₁. remove_sessions-eq-ok ids (Map.remove id m) os₁ h₁

  -- `m` are the reconciled sessions, `app'` is the state behind the cleanup.
  pub record Removed (p : SessionRecord → Bool) (dry_run : Bool) (app : AppState)
      (m : Map SessionRecord) (app' : AppState) (result : SessionCleanupResult) : Type 0 where
    pub matched :
        (id : Text)
        → (mem id result.matched_session_ids ≡ true)
          ↔ ((session : SessionRecord) × (Map.get id m ≡ some session) × (p session ≡ true))
    pub removed : result.removed_session_ids ≡ (if dry_run then [] else result.matched_session_ids)
    pub count : result.kept_count ≡ length app'.sessions
    pub dry : dry_run ≡ true → app'.sessions ≡ m
    pub left :
        dry_run ≡ false
        → (id : Text) (session : SessionRecord)
        → (Map.get id app'.sessions ≡ some session)
          ↔ ((Map.get id m ≡ some session) × (p session ≡ false))
    pub rest : (app'.profiles ≡ app.profiles) × (app'.project_info ≡ app.project_info)

  remove_matched-Removed :
      (p : SessionRecord → Bool) (dry_run : Bool) (app : AppState) (m : Map SessionRecord) (os : Os)
      {app' : AppState} {result : SessionCleanupResult} {os' : Os}
      → IsDistinct m
      → remove_matched machine dry_run (matched_ids p m) app m os ≡ (ok (app', result), os')
      → Removed p dry_run app m app' result
  unfolding remove_matched
  remove_matched-Removed p true app m os d h =
      subst (λ (x : AppState × SessionCleanupResult). Removed p true app m x.0 x.1) (pure-eq-ok h).0
        (record {
          matched = λ id. rw (mem-matched_ids p id m d) (passes_iff p (Map.get id m));
          removed = refl;
          count = refl;
          dry = λ e. refl;
          left = λ e. cc;
          rest = (refl, refl);
        })
  remove_matched-Removed p false app m os d h =
      after_ok (remove_sessions machine (matched_ids p m) m) _ os h λ m₁ os₁ q h₁.
        let e : m₁ ≡ Map.remove_all (matched_ids p m) m =
          remove_sessions-eq-ok (matched_ids p m) m os q in
        subst (λ (x : AppState × SessionCleanupResult). Removed p false app m x.0 x.1)
          (pure-eq-ok h₁).0
          (record {
            matched = λ id. rw (mem-matched_ids p id m d) (passes_iff p (Map.get id m));
            removed = refl;
            count = refl;
            dry = λ k. cc;
            left = λ k id session.
                rw (e, get-remove_all id (matched_ids p m) m, mem-matched_ids p id m d)
                  (left_iff p (Map.get id m) session);
            rest = (refl, refl);
          })

  -- Reconciling keeps the keys in order.
  reconcile_found-IsSorted :
      (id : Text) (now : ℕ) (m : Map SessionRecord) (found : Option SessionRecord) (os : Os)
      {m' : Map SessionRecord} {os' : Os}
      → IsSorted m
      → reconcile_found machine id now m found os ≡ (ok m', os')
      → IsSorted m'
  unfolding reconcile_found
  reconcile_found-IsSorted id now m none os s h = subst IsSorted (pure-eq-ok h).0 s
  reconcile_found-IsSorted id now m (some session) os s h =
      after_ok (reconcile_session machine session now) _ os h
        λ r os₁ q h₁. subst IsSorted (pure-eq-ok h₁).0 (insert-IsSorted id r.0 m s)

  reconcile_ids-IsSorted :
      (ids : List Text) (now : ℕ) (m : Map SessionRecord) (os : Os) {m' : Map SessionRecord}
      {os' : Os}
      → IsSorted m
      → reconcile_ids machine ids now m os ≡ (ok m', os')
      → IsSorted m'
  unfolding reconcile_ids
  reconcile_ids-IsSorted [] now m os s h = subst IsSorted (pure-eq-ok h).0 s
  reconcile_ids-IsSorted (id ∷ ids) now m os s h =
      after_ok (reconcile_found machine id now m (Map.get id m)) _ os h λ m₁ os₁ q h₁.
        reconcile_ids-IsSorted ids now m₁ os₁
          (reconcile_found-IsSorted id now m (Map.get id m) os s q) h₁

  -- If the keys of the sessions are in order, a cleanup that returns reconciled the sessions, and
  -- then, unless it was a dry run, removed those with one of the statuses and the age, and no other;
  -- its lists and its count say so, and it changed nothing else of the state.
  pub cleanup_mutation-Removed :
      (statuses : List SessionStatus) (older_than_secs : Option ℕ) (dry_run : Bool)
      (ids : List Text) (app : AppState) (os : Os) {app' : AppState} {result : SessionCleanupResult}
      {os' : Os}
      → IsSorted app.sessions
      → cleanup_mutation machine statuses older_than_secs dry_run ids app os
        ≡ (ok (app', result), os')
      → (reconciled : Map SessionRecord) × (os₁ : Os) × (reconcile_ids machine ids
            (clock os).0
            app.sessions
            (clock os).1
          ≡ (ok reconciled, os₁))
        × Removed (matches statuses older_than_secs (clock os).0) dry_run app reconciled app' result
  unfolding cleanup_mutation
  cleanup_mutation-Removed statuses older_than_secs dry_run ids app os sorted h =
      let now = (clock os).0 in
      after_ok (reconcile_ids machine ids now app.sessions) _ (clock os).1 h λ m os₁ q h₁. (
        m,
        os₁,
        q,
        remove_matched-Removed (matches statuses older_than_secs now) dry_run app m os₁
            (IsSorted-IsDistinct m
              (reconcile_ids-IsSorted ids now app.sessions (clock os).1 sorted q))
            h₁,
      )
