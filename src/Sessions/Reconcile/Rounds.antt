-- ===== src/Sessions/Reconcile/Rounds.antt =====
-- The loop that reconciles a list of sessions, and the listing.
use mathlib.Core.Path.{subst}
use launch_code.Prelude.{
  ap, sym, ◌∙◌, ◌≡◌, refl, ◌≢◌, ◌⊎◌, inl, inr, ℕ, Bool, Option, none, some, List, [], ◌∷◌, ok,
  arith, true, false, if◌then◌else◌,
}
use launch_code.Prelude.Io.{after_ok, pure-eq-ok}
use launch_code.Text
use launch_code.Text.{Text, mem}
use launch_code.Map
use launch_code.Map.{Map}
use launch_code.Model.{AppState, SessionRecord}
use launch_code.Sessions.{Machine}
use launch_code.Sessions.Reconcile.{
  reconcile_session, reconcile_found, reconcile_ids, collect_reconcile_candidate_ids,
  session_requires_reconcile_for_list, list_mutation,
}
use launch_code.Sessions.Reconcile.Settled.{
  Fate, IsSettled, Gone, Fate-IsSettled, reconcile_session-Fate,
}

module _ (machine : Machine) where
  -- One round of the loop: a missing session is passed over, a session that is there meets its fate.
  Round : Text → Map SessionRecord → Map SessionRecord → Type 0
  Round id m m' =
      ((m' ≡ m) × (Map.get id m ≡ none))
      ⊎ ((old : SessionRecord) × (next : SessionRecord) × (Map.get id m ≡ some old)
          × Fate machine old next
          × (m' ≡ Map.insert id next m))

  abbrev pub SettledAt : Text → Map SessionRecord → Type 0
  SettledAt id m =
      (session : SessionRecord) → Map.get id m ≡ some session → IsSettled machine session

  -- The session stayed as it was, or no process of it was found.
  abbrev pub KeptUnlessGone : Text → Map SessionRecord → Map SessionRecord → Type 0
  KeptUnlessGone id m m' =
      (old : SessionRecord)
      → Map.get id m ≡ some old
      → (Map.get id m' ≡ some old) ⊎ Gone machine old.pid

  same-IsSettled :
      (next session : SessionRecord)
      → ◌≡◌ {A = Option SessionRecord} (some next) (some session)
      → IsSettled machine next
      → IsSettled machine session
  same-IsSettled next session e settled =
      let p : next ≡ session = cc e in subst (IsSettled machine) p settled

  module _ (id : Text) (m m' : Map SessionRecord) where
    Round-SettledAt : Round id m m' → SettledAt id m'
    unfolding Round
    Round-SettledAt (inl (e, n)) session f = absurd (cc (n, f, ap (Map.get id) e))
    Round-SettledAt (inr (old, next, found, fate, e)) session f =
        let g : some next ≡ Map.get id m' =
          rw e (ground (arith, Map.get-insert id id next m, Text.eq_refl id)) in
        same-IsSettled next session (g ∙ f) (Fate-IsSettled machine old next fate)

    Round-keeps : (k : Text) → Round id m m' → SettledAt k m → SettledAt k m'
    unfolding Round
    Round-keeps k (inl (e, n)) before session f = before session (cc (f, ap (Map.get k) e))
    Round-keeps k (inr (old, next, found, fate, e)) before session f = go (Text.eq id k) refl
      where
        g : Map.get k m' ≡ (if Text.eq id k then some next else Map.get k m)
        g = rw e (Map.get-insert id k next m)

        go : (b : Bool) → Text.eq id k ≡ b → IsSettled machine session
        go true q =
            same-IsSettled next session (ground (arith, g)) (Fate-IsSettled machine old next fate)
        go false q = before session (ground (arith, g))

    Round-KeptUnlessGone : (k : Text) → Round id m m' → KeptUnlessGone k m m'
    unfolding Round
    Round-KeptUnlessGone k (inl (e, n)) was f = inl (ap (Map.get k) e ∙ f)
    Round-KeptUnlessGone k (inr (old, next, found, fate, e)) was f = go (Text.eq id k) refl fate
      where
        g : Map.get k m' ≡ (if Text.eq id k then some next else Map.get k m)
        g = rw e (Map.get-insert id k next m)

        go :
            (b : Bool)
            → Text.eq id k ≡ b
            → Fate machine old next
            → (Map.get k m' ≡ some was) ⊎ Gone machine was.pid
        go false q h = inl (ground (arith, g))
        go true q (inl (live, same)) = inl (cc (g, q, same, found, f, (Text.eq_iff id k).0 q))
        go true q (inr (gone, _)) =
            let p : old ≡ was = cc (found, f, (Text.eq_iff id k).0 q) in
            inr (subst (λ (s : SessionRecord). Gone machine s.pid) p gone)

    Round-frame : (k : Text) → k ≢ id → Round id m m' → Map.get k m' ≡ Map.get k m
    unfolding Round
    Round-frame k ne (inl (e, n)) = rw e
    Round-frame k ne (inr (old, next, found, fate, e)) =
        rw e (ground (arith, Map.get-insert id k next m, Text.eq_iff id k))

  -- The loop over `ids`, from the sessions `m` to the sessions `m'`.
  pub record Reconciled (ids : List Text) (m m' : Map SessionRecord) : Type 0 where
    pub settled : (id : Text) → mem id ids ≡ true → SettledAt id m'
    pub kept : (id : Text) → SettledAt id m → SettledAt id m'
    pub unless_gone : (id : Text) → KeptUnlessGone id m m'
    pub frame : (id : Text) → mem id ids ≡ false → Map.get id m' ≡ Map.get id m

  Reconciled-nil : (m : Map SessionRecord) → Reconciled [] m m
  unfolding mem
  Reconciled-nil m = record {
    settled = λ id h. ground arith;
    kept = λ id h. h;
    unless_gone = λ id old f. inl f;
    frame = λ id h. refl;
  }

  Reconciled-cons :
      (id : Text) (ids : List Text) (m m₁ m' : Map SessionRecord)
      → Round id m m₁
      → Reconciled ids m₁ m'
      → Reconciled (id ∷ ids) m m'
  unfolding mem
  Reconciled-cons id ids m m₁ m' step rest = record {
    settled = λ k h. reconciled_here k h (Text.eq k id) refl;
    kept = λ k h. rest.kept k (Round-keeps id m m₁ k step h);
    unless_gone = λ k old f. elim (Round-KeptUnlessGone id m m₁ k step old f) [
      | inl same ↦ rest.unless_gone k old same
      | inr gone ↦ inr gone
    ];
    frame = λ k h.
        rest.frame k (ground arith) ∙ Round-frame id m m₁ k (ground (arith, Text.eq_iff k id)) step;
  }
    where
      reconciled_here :
          (k : Text) → mem k (id ∷ ids) ≡ true → (b : Bool) → Text.eq k id ≡ b → SettledAt k m'
      reconciled_here k h true q =
          rest.kept k (rw ((Text.eq_iff k id).0 q) (Round-SettledAt id m m₁ step))
      reconciled_here k h false q = rest.settled k (ground arith)

  open machine use {Os, clock}

  reconcile_found-Round :
      (id : Text) (now : ℕ) (m : Map SessionRecord) (found : Option SessionRecord) (os : Os)
      {m' : Map SessionRecord} {os' : Os}
      → Map.get id m ≡ found
      → reconcile_found machine id now m found os ≡ (ok m', os')
      → Round id m m'
  unfolding reconcile_found Round
  reconcile_found-Round id now m none os f h = inl (sym (pure-eq-ok h).0, f)
  reconcile_found-Round id now m (some session) os f h =
      after_ok (reconcile_session machine session now) _ os h λ r os₁ q h₁.
        inr
          (session, r.0, f, reconcile_session-Fate machine session now os q, sym (pure-eq-ok h₁).0)

  -- Reconciling the sessions `ids` settles each of them that is there: a probe found its process, a
  -- process was started for it, or it is stopped without one. It leaves a session as it was if it is
  -- not among them, or unless it has no process or a probe found its process gone; it unsettles none.
  pub reconcile_ids-Reconciled :
      (ids : List Text) (now : ℕ) (m : Map SessionRecord) (os : Os) {m' : Map SessionRecord}
      {os' : Os}
      → reconcile_ids machine ids now m os ≡ (ok m', os')
      → Reconciled ids m m'
  unfolding reconcile_ids
  reconcile_ids-Reconciled [] now m os {m' = m'} h =
      let e : m ≡ m' = (pure-eq-ok h).0 in rw (sym e) (Reconciled-nil m)
  reconcile_ids-Reconciled (id ∷ ids) now m os {m' = m'} h =
      after_ok (reconcile_found machine id now m (Map.get id m)) _ os h λ m₁ os₁ q h₁.
        Reconciled-cons id ids m m₁ m' (reconcile_found-Round id now m (Map.get id m) os refl q)
          (reconcile_ids-Reconciled ids now m₁ os₁ h₁)

not_collected :
    (id : Text) (m : Map SessionRecord) (session : SessionRecord)
    → mem id (collect_reconcile_candidate_ids m) ≡ false
    → Map.get id m ≡ some session
    → session_requires_reconcile_for_list session ≡ false
unfolding Map.get mem collect_reconcile_candidate_ids
not_collected id [] session h f = ground arith
not_collected id ((k, s) ∷ m) session h f =
    ground (arith, Text.eq_iff k id, Text.eq_iff id k, not_collected id m session)

-- A listing whose candidates were collected from the state that it updates.
pub record Listed (machine : Machine) (app app' : AppState) (listed : List SessionRecord)
    : Type 0 where
  pub settled :
      (id : Text) (session : SessionRecord)
      → Map.get id app'.sessions ≡ some session
      → IsSettled machine session
  pub unless_gone : (id : Text) → KeptUnlessGone machine id app.sessions app'.sessions
  pub rows : listed ≡ Map.values app'.sessions

module _ (machine : Machine) where
  all_settled :
      (m m' : Map SessionRecord)
      → Reconciled machine (collect_reconcile_candidate_ids m) m m'
      → (id : Text) → SettledAt machine id m'
  unfolding session_requires_reconcile_for_list
  all_settled m m' r id = go (mem id (collect_reconcile_candidate_ids m)) refl
    where
      stopped_already :
          (session : SessionRecord)
          → session_requires_reconcile_for_list session ≡ false
          → IsSettled machine session
      stopped_already session h = inr (inr (ground arith, ground arith))

      go : (b : Bool) → mem id (collect_reconcile_candidate_ids m) ≡ b → SettledAt machine id m'
      go true q = r.settled id q
      go false q = r.kept id λ session f. stopped_already session (not_collected id m session q f)

  -- A listing whose candidates were collected from the state that it updates leaves no session but
  -- those of which a probe found the process, those that it started a process for, and those that are
  -- stopped without one; it leaves a session as it was, unless it has no process or a probe found its
  -- process gone; and it lists what it left.
  pub list_mutation-IsSettled :
      (app : AppState) (os : machine.Os) {app' : AppState} {listed : List SessionRecord}
      {os' : machine.Os}
      → list_mutation machine (collect_reconcile_candidate_ids app.sessions) app os
        ≡ (ok (app', listed), os')
      → Listed machine app app' listed
  unfolding list_mutation
  list_mutation-IsSettled app os h =
      let ids = collect_reconcile_candidate_ids app.sessions in
      let now = (machine.clock os).0 in
      let os₁ = (machine.clock os).1 in
      after_ok (reconcile_ids machine ids now app.sessions) _ os₁ h λ sessions os₂ q h₁.
        let r = reconcile_ids-Reconciled machine ids now app.sessions os₁ q in
        subst (λ (p : AppState × List SessionRecord). Listed machine app p.0 p.1) (pure-eq-ok h₁).0
          (record {
            settled = all_settled app.sessions sessions r;
            unless_gone = r.unless_gone;
            rows = refl;
          })
