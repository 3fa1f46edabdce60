-- ===== src/Sessions/Restart/Commit.antt =====
-- How the update of a restart ends.
use mathlib.Core.Path.{subst}
use launch_code.Prelude.{
  ℕ, if◌then◌else◌, ◌≡◌, refl, sym, ap, ◌⊎◌, inl, inr, true, Option, some, Result, ok, err, arith,
}
use launch_code.Prelude.Io.{after_lift, pure, fail}
use launch_code.Text.{Text}
use launch_code.Error.{AppError, ProcessError, state, session_state_changed}
use launch_code.Map
use launch_code.Model.{AppState, SessionRecord, LaunchSpec, DebugSessionMeta, running}
use launch_code.State.Files.{locked_file}
use launch_code.State.Store.{Serde, World, decode_file, encode, update}
use launch_code.State.Store.Contract.{update-Updated}
use launch_code.State.Store.Crash.{IsWhole, update-IsWhole}
use launch_code.Sessions.{Machine}
use launch_code.Sessions.Reconcile.{find_session, put_session}
use launch_code.Sessions.Resolve.{pid_eq}
use launch_code.Sessions.Stop.Swap.{pid_eq_iff}
use launch_code.Sessions.Restart.{
  restarted, restart_log_path, restart_mutation, commit_restart, or_kill,
}

module _ (machine : Machine) (plan : SessionRecord)
    (prepared : LaunchSpec × Option DebugSessionMeta) (pid : ℕ) where
  open machine use {Os, clock, stop_process}

  pub record Replaced (before after : AppState) (session : SessionRecord) : Type 0 where
    pub old : SessionRecord
    pub found : Map.get plan.id before.sessions ≡ some old
    pub same_pid : old.pid ≡ plan.pid
    pub new_pid : session.pid ≡ some pid
    pub is_running : session.status ≡ running
    pub sessions : after.sessions ≡ Map.insert plan.id session before.sessions

  replaced :
      (before : AppState) (old next : SessionRecord) (os : Os) {after : AppState}
      {session : SessionRecord} {os' : Os}
      → find_session plan.id before ≡ ok old
      → next.pid ≡ some pid
      → next.status ≡ running
      → (if pid_eq old.pid plan.pid
            then pure {A = AppState × SessionRecord} (put_session plan.id next before, next)
            else fail (session_state_changed old.id))
          os
        ≡ (ok (after, session), os')
      → Replaced before after session
  unfolding find_session
  replaced before old next os found p r h = record {
    old = old;
    found = ground arith;
    same_pid = ground (arith, pid_eq_iff old.pid plan.pid);
    new_pid = ground arith;
    is_running = ground arith;
    sessions = ground arith;
  }

  restart_mutation-Replaced :
      (before : AppState) (os : Os) {after : AppState} {session : SessionRecord} {os' : Os}
      → restart_mutation machine plan prepared pid before os ≡ (ok (after, session), os')
      → Replaced before after session
  unfolding restart_mutation restarted
  restart_mutation-Replaced before os h =
      after_lift (find_session plan.id before) _ (clock os).1 h λ old found h₁.
        let log_path = restart_log_path machine plan in
        replaced before old (restarted machine prepared.0 prepared.1 pid log_path (clock os).0 old)
          (clock os).1 found refl refl h₁

  -- The session that a restart recorded, in the state that the file is left with.
  pub record Recorded (json : Serde) (file file' : Option Text) (session : SessionRecord)
      : Type 0 where
    pub before : AppState
    pub after : AppState
    pub payload : Text
    pub decoded : decode_file json file ≡ ok before
    pub replaced : Replaced before after session
    pub encoded : encode json after ≡ ok payload
    pub written : file' ≡ some payload

  module _ (json : Serde) (w : World Os) where
    committed :
        {session : SessionRecord} {w' : World Os}
        → update json state (restart_mutation machine plan prepared pid) w ≡ (ok session, w')
        → Recorded json (locked_file w.fs) w'.fs.state_file session
    committed h =
        let u = update-Updated json state (restart_mutation machine plan prepared pid) w h in
        record {
          before = u.before;
          after = u.after;
          payload = u.payload;
          decoded = u.decoded;
          replaced = restart_mutation-Replaced u.before w.os u.mutated;
          encoded = u.encoded;
          written = u.written;
        }

    -- The update failed with this error, and the last action was to stop the new process by force,
    -- with 150 ms of grace; `stopped` is what that gave, which is not reported. The state file is whole.
    pub record Withdrawn (e : AppError) (w' : World Os) : Type 0 where
      pub failed : World Os
      pub stopped : Result ProcessError (Unit {0})
      pub failure :
          update json state (restart_mutation machine plan prepared pid) w ≡ (err e, failed)
      pub last_action : stop_process pid true 150 failed.os ≡ (stopped, w'.os)
      pub whole : IsWhole json (restart_mutation machine plan prepared pid) w w'.fs.state_file

    -- A restart that started a process either records it as the process of the session, in place of the
    -- one that it read, or fails with the error of its update, has as its last action called for the
    -- process to be stopped, and leaves a whole state file; whether the process stopped is not known.
    pub commit_restart-Committed :
        (r : Result AppError SessionRecord) (w' : World Os)
        → commit_restart machine json plan prepared pid w ≡ (r, w')
        → ((session : SessionRecord) × (r ≡ ok session)
            × Recorded json (locked_file w.fs) w'.fs.state_file session)
          ⊎ ((e : AppError) × (r ≡ err e) × Withdrawn e w')
    unfolding commit_restart or_kill
    commit_restart-Committed r w' h =
        go (update json state (restart_mutation machine plan prepared pid) w) refl h
      where
        go :
            (out : Result AppError SessionRecord × World Os)
            → update json state (restart_mutation machine plan prepared pid) w ≡ out
            → or_kill machine pid out ≡ (r, w')
            → ((session : SessionRecord) × (r ≡ ok session)
                × Recorded json (locked_file w.fs) w'.fs.state_file session)
              ⊎ ((e : AppError) × (r ≡ err e) × Withdrawn e w')
        go (ok session, u) q h = inl (session, ground arith, committed {w' = w'} (cc (q, h)))
        go (err e, u) q h =
            let v : record u { os = (stop_process pid true 150 u.os).1 } ≡ w' =
              ap (λ (p : Result AppError SessionRecord × World Os). p.1) h in
            inr (
              e,
              ap (λ (p : Result AppError SessionRecord × World Os). p.0) (sym h),
              subst (Withdrawn e) v (record {
                failed = u;
                stopped = (stop_process pid true 150 u.os).0;
                failure = q;
                last_action = refl;
                whole =
                    subst
                      (λ (p : Result AppError SessionRecord × World Os).
                        IsWhole json (restart_mutation machine plan prepared pid) w
                          p.1.fs.state_file)
                      q (update-IsWhole json state (restart_mutation machine plan prepared pid) w);
              }),
            )
