-- ===== src/Batch/Local.antt =====
-- The session interface of a workspace, by the operations of session control.
use launch_code.Batch.{SessionApi}
use launch_code.State.Store.{Serde, World}
use launch_code.Sessions.{Machine}
use launch_code.Sessions.Reconcile.{api_list_sessions}
use launch_code.Sessions.Stop.{api_stop_session_with_options}
use launch_code.Sessions.Restart.{api_restart_session_with_options}
use launch_code.Sessions.Signals.{api_suspend_session, api_resume_session}

unfoldable pub session_api : (machine : Machine) → Serde → SessionApi (World machine.Os)
session_api machine json = record {
  list = api_list_sessions machine json;
  stop = api_stop_session_with_options machine json;
  restart = api_restart_session_with_options machine json;
  suspend = api_suspend_session machine json;
  resume = api_resume_session machine json;
}
