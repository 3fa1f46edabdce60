-- ===== src/Sessions/Reconcile/Settled.antt =====
-- What `reconcile_session` makes of a session.
use mathlib.Core.Path.{subst}
use launch_code.Prelude.{
  ◌≡◌, refl, sym, ℕ, Bool, true, false, Option, none, some, ok, arith, ◌⊎◌, inl, inr, if◌then◌else◌,
}
use launch_code.Prelude.Io.{after_ok, pure-eq-ok, pure}
use launch_code.Text.{Text}
use launch_code.Model.{SessionRecord, running, stopped}
use launch_code.Sessions.{Machine}
use launch_code.Sessions.Reconcile.{
  mark_stopped, should_restart, revive, reconcile_for, reconcile_session, pid_alive,
}

module _ (machine : Machine) where
  open machine use {
    Os, is_alive, prepare_debug_spec, run_prelaunch_task_if_any, spawn_session_worker,
  }

  -- A probe found the process.
  abbrev pub Live : Option ℕ → Type 0
  Live none = ⊥
  Live (some pid) = (os : Os) × (u : Os) × (is_alive pid os ≡ (true, u))

  -- There is no process, or a probe found that it is gone.
  abbrev pub Gone : Option ℕ → Type 0
  Gone none = Unit
  Gone (some pid) = (os : Os) × (u : Os) × (is_alive pid os ≡ (false, u))

  -- The process is one that was started for the session.
  abbrev pub Revived : SessionRecord → Type 0
  Revived session =
      (pid : ℕ) × (log_path : Text) × (os : Os) × (u : Os) × (spawn_session_worker session.id
          session.spec log_path os
        ≡ (ok pid, u))
      × (session.pid ≡ some pid)
      × (session.status ≡ running)

  abbrev pub IsStopped : SessionRecord → Type 0
  IsStopped session = (session.pid ≡ none) × (session.status ≡ stopped)

  abbrev pub IsSettled : SessionRecord → Type 0
  IsSettled session = Live session.pid ⊎ Revived session ⊎ IsStopped session

  -- A session, and what it is reconciled to.
  abbrev pub Fate : SessionRecord → SessionRecord → Type 0
  Fate old new =
      (Live old.pid × (new ≡ old))
      ⊎ (Gone old.pid
          × (((should_restart old ≡ true) × Revived new)
              ⊎ ((should_restart old ≡ false) × IsStopped new)))

  pub Fate-IsSettled : (old new : SessionRecord) → Fate old new → IsSettled new
  Fate-IsSettled old new (inl (live, e)) = inl (subst (λ s. Live s.pid) (sym e) live)
  Fate-IsSettled old new (inr (gone, inl (_, revived))) = inr (inl revived)
  Fate-IsSettled old new (inr (gone, inr (_, is_stopped))) = inr (inr is_stopped)

  revive-Revived :
      (session : SessionRecord) (now : ℕ) (os : Os) {r : SessionRecord × Bool} {os' : Os}
      → revive machine session now os ≡ (ok r, os')
      → Revived r.0
  unfolding revive
  revive-Revived session now os h =
      after_ok (prepare_debug_spec session.spec) _ os h λ prepared os₁ _ h₁.
        after_ok (run_prelaunch_task_if_any prepared.0 _) _ os₁ h₁ λ _ os₂ _ h₂.
          after_ok (spawn_session_worker session.id prepared.0 _) _ os₂ h₂ λ pid os₃ spawned h₃.
            subst (λ (p : SessionRecord × Bool). Revived p.0) (pure-eq-ok h₃).0
              (pid, _, os₂, os₃, spawned, refl, refl)

  Gone-Fate :
      (session : SessionRecord) (now : ℕ) (os : Os) (b : Bool) {r : SessionRecord × Bool} {os' : Os}
      → Gone session.pid
      → should_restart session ≡ b
      → (if b then revive machine session now else pure (mark_stopped session now)) os ≡ (ok r, os')
      → Fate session r.0
  unfolding mark_stopped
  Gone-Fate session now os true gone e h = inr (gone, inl (e, revive-Revived session now os h))
  Gone-Fate session now os false gone e h =
      subst (λ (p : SessionRecord × Bool). Fate session p.0) (pure-eq-ok h).0
        (inr (gone, inr (e, (refl, refl))))

  reconcile_for-Fate :
      (session : SessionRecord) (now : ℕ) (alive : Bool) (os : Os) {r : SessionRecord × Bool}
      {os' : Os}
      → (if alive then Live session.pid else Gone session.pid)
      → reconcile_for machine session now alive os ≡ (ok r, os')
      → Fate session r.0
  unfolding reconcile_for
  reconcile_for-Fate session now true os live h =
      subst (λ (p : SessionRecord × Bool). Fate session p.0) (pure-eq-ok h).0 (inl (live, refl))
  reconcile_for-Fate session now false os gone h =
      Gone-Fate session now os (should_restart session) gone refl h

  pid_alive-probed :
      (pid : Option ℕ) (os : Os) (alive : Bool) {u : Os}
      → pid_alive machine pid os ≡ (ok alive, u)
      → (if alive then Live pid else Gone pid)
  unfolding pid_alive
  pid_alive-probed none os true h = cc
  pid_alive-probed none os false h = tt
  pid_alive-probed (some pid) os true {u = u} h = (os, u, ground arith)
  pid_alive-probed (some pid) os false {u = u} h = (os, u, ground arith)

  pub reconcile_session-Fate :
      (session : SessionRecord) (now : ℕ) (os : Os) {r : SessionRecord × Bool} {os' : Os}
      → reconcile_session machine session now os ≡ (ok r, os')
      → Fate session r.0
  unfolding reconcile_session
  reconcile_session-Fate session now os h =
      after_ok (pid_alive machine session.pid) _ os h λ alive os₁ a h₁.
        reconcile_for-Fate session now alive os₁ (pid_alive-probed session.pid os alive a) h₁
