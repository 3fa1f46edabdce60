-- ===== src/Sessions/Signals.antt =====
-- Suspending, resuming and reading a session: src/app/session_api.rs.
use launch_code.Prelude.{ok_or}
use launch_code.Prelude.Io.{Io, ◌>>=◌, ◌>>◌, pure, lift}
use launch_code.Text.{Text}
use launch_code.Error.{AppError, state, session_missing_pid}
use launch_code.Model.{AppState, SessionRecord, running, suspended}
use launch_code.State.Store.{Serde, World, update}
use launch_code.Sessions.{Machine}
use launch_code.Sessions.Reconcile.{
  find_session, put_session, unix_timestamp_secs, reconcile_session,
}
use launch_code.Sessions.Resolve.{resolve_session_id}
use launch_code.Sessions.Stop.{as_app}

module _ (machine : Machine) where
  open machine use {Os, suspend_process, resume_process}

  -- The mutations of `api_suspend_session`, `api_resume_session` and `api_get_session`.
  unfoldable pub suspend_mutation : Text → AppState → Io Os AppError (AppState × SessionRecord)
  suspend_mutation session_id app = do
    now ← unix_timestamp_secs machine
    session ← lift (find_session session_id app)
    pid ← lift (ok_or session.pid (session_missing_pid session.id))
    as_app machine (suspend_process pid)
    let next = record session { status = suspended; updated_at = now }
    pure (put_session session_id next app, next)

  unfoldable pub resume_mutation : Text → AppState → Io Os AppError (AppState × SessionRecord)
  resume_mutation session_id app = do
    now ← unix_timestamp_secs machine
    session ← lift (find_session session_id app)
    pid ← lift (ok_or session.pid (session_missing_pid session.id))
    as_app machine (resume_process pid)
    let next = record session { status = running; updated_at = now }
    pure (put_session session_id next app, next)

  unfoldable pub get_mutation : Text → AppState → Io Os AppError (AppState × SessionRecord)
  get_mutation session_id app = do
    now ← unix_timestamp_secs machine
    session ← lift (find_session session_id app)
    reconciled ← reconcile_session machine session now
    pure (put_session session_id reconciled.0 app, reconciled.0)

  module _ (json : Serde) where
    unfoldable pub api_suspend_session : Text → Io (World Os) AppError SessionRecord
    api_suspend_session session_id = do
      id ← resolve_session_id json session_id
      update json state (suspend_mutation id)

    unfoldable pub api_resume_session : Text → Io (World Os) AppError SessionRecord
    api_resume_session session_id = do
      id ← resolve_session_id json session_id
      update json state (resume_mutation id)

    unfoldable pub api_get_session : Text → Io (World Os) AppError SessionRecord
    api_get_session session_id = do
      id ← resolve_session_id json session_id
      update json state (get_mutation id)
