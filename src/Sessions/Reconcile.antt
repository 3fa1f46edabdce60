-- ===== src/Sessions/Reconcile.antt =====
-- `reconcile_session` of src/app.rs, and the listing that reconciles (src/app/session_api.rs).
pub mod Settled
pub mod Rounds
use launch_code.Prelude.{
  ℕ, ◌+◌, ◌%◌, ◌^◌, Bool, true, false, not, ◌&&◌, ◌||◌, Option, none, some, List, [], ◌∷◌, Result,
  ok, err, ok_or, is_some, unwrap_or, is_empty, if◌then◌else◌,
}
use launch_code.Prelude.Io.{Io, ◌>>=◌, ◌>>◌, pure}
use launch_code.Text.{Text}
use launch_code.Error.{AppError, state, session_not_found}
use launch_code.Map
use launch_code.Map.{Map}
use launch_code.Model.{AppState, SessionRecord, running, stopped, is_stopped, is_running_or_unknown}
use launch_code.State.Store.{Serde, World, lift_fs, load, update}
use launch_code.Sessions.{Machine}

-- `session_requires_reconcile_for_list`
unfoldable pub session_requires_reconcile_for_list : SessionRecord → Bool
session_requires_reconcile_for_list session = is_some session.pid || not (is_stopped session.status)

unfoldable pub collect_reconcile_candidate_ids : Map SessionRecord → List Text
collect_reconcile_candidate_ids [] = []
collect_reconcile_candidate_ids ((id, session) ∷ rest) =
    let ids = collect_reconcile_candidate_ids rest in
    if session_requires_reconcile_for_list session then id ∷ ids else ids

-- The last part of `reconcile_session`: the session has no live process and is not restarted.
unfoldable pub mark_stopped : SessionRecord → ℕ → SessionRecord × Bool
mark_stopped session now =
    let dirty = is_some session.pid || not (is_stopped session.status) in
    (
      record session {
        pid = none;
        status = stopped;
        updated_at = if dirty then now else session.updated_at;
      },
      dirty,
    )

abbrev pub should_restart : SessionRecord → Bool
should_restart session = session.spec.managed && is_running_or_unknown session.status

-- `find_session_mut` of src/app.rs; the session goes back with `Map.insert` at the same key.
unfoldable pub find_session : Text → AppState → Result AppError SessionRecord
find_session id app = ok_or (Map.get id app.sessions) (session_not_found id)

abbrev pub put_session : Text → SessionRecord → AppState → AppState
put_session id session app = record app { sessions = Map.insert id session app.sessions }

module _ (machine : Machine) where
  open machine use {
    Os, clock, is_alive, prepare_debug_spec, run_prelaunch_task_if_any, spawn_session_worker,
    default_log_path,
  }

  abbrev pub alive_result : Bool × Os → Result AppError Bool × Os
  alive_result (alive, os) = (ok alive, os)

  -- `session.pid.map(is_process_alive).unwrap_or(false)`
  unfoldable pub pid_alive : Option ℕ → Io Os AppError Bool
  pid_alive none = pure false
  pid_alive (some pid) = λ os. alive_result (is_alive pid os)

  -- A managed session whose process is gone is started again. The count is a `u32` and wraps.
  unfoldable pub revive : SessionRecord → ℕ → Io Os AppError (SessionRecord × Bool)
  revive session now = do
    let log_path = unwrap_or session.log_path (default_log_path session.id)
    prepared ← prepare_debug_spec session.spec
    run_prelaunch_task_if_any prepared.0 log_path
    pid ← spawn_session_worker session.id prepared.0 log_path
    pure (
      record session {
        spec = prepared.0;
        pid = some pid;
        status = running;
        updated_at = now;
        restart_count = (session.restart_count + 1) % 2 ^ 32;
        debug_meta = prepared.1;
      },
      true,
    )

  -- The branch of `reconcile_session` that is taken for what `is_process_alive` said.
  unfoldable pub reconcile_for : SessionRecord → ℕ → Bool → Io Os AppError (SessionRecord × Bool)
  reconcile_for session now true = pure (session, false)
  reconcile_for session now false =
      if should_restart session then revive session now else pure (mark_stopped session now)

  -- The session is handed back with the flag that the function returns.
  unfoldable pub reconcile_session : SessionRecord → ℕ → Io Os AppError (SessionRecord × Bool)
  reconcile_session session now = do alive ← pid_alive session.pid; reconcile_for session now alive

  -- What the loop does with the entry that it found, or did not find.
  unfoldable pub reconcile_found :
      Text → ℕ → Map SessionRecord → Option SessionRecord → Io Os AppError (Map SessionRecord)
  reconcile_found id now sessions none = pure sessions
  reconcile_found id now sessions (some session) = do
    reconciled ← reconcile_session session now
    pure (Map.insert id reconciled.0 sessions)

  -- `for id in &ids_to_reconcile`; a missing id is skipped.
  unfoldable pub reconcile_ids :
      List Text → ℕ → Map SessionRecord → Io Os AppError (Map SessionRecord)
  reconcile_ids [] now sessions = pure sessions
  reconcile_ids (id ∷ ids) now sessions = do
    next ← reconcile_found id now sessions (Map.get id sessions)
    reconcile_ids ids now next

  abbrev pub clock_result : ℕ × Os → Result AppError ℕ × Os
  clock_result (now, os) = (ok now, os)

  abbrev pub unix_timestamp_secs : Io Os AppError ℕ
  unix_timestamp_secs os = clock_result (clock os)

  -- The mutation of `api_list_sessions`.
  unfoldable pub list_mutation :
      List Text → AppState → Io Os AppError (AppState × List SessionRecord)
  list_mutation ids app = do
    now ← unix_timestamp_secs
    sessions ← reconcile_ids ids now app.sessions
    pure (record app { sessions = sessions }, Map.values sessions)

  module _ (json : Serde) where
    unfoldable pub list_from : AppState → Io (World Os) AppError (List SessionRecord)
    list_from app =
        let ids = collect_reconcile_candidate_ids app.sessions in
        if is_empty ids
        then pure (Map.values app.sessions)
        else update json state (list_mutation ids)

    -- `api_list_sessions`; its first test, for no sessions at all, gives the empty list too.
    unfoldable pub api_list_sessions : Io (World Os) AppError (List SessionRecord)
    api_list_sessions = do
      app ← lift_fs state (load json)
      if is_empty app.sessions then pure [] else list_from app
