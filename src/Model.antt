-- ===== src/Model.antt =====
-- src/model.rs: the launch specification, the session record and the application state. Integers
-- (`u16`, `u32`, `u64`) are numbers with their bounds where the code can leave them; paths and
-- texts are lists of code points.
use launch_code.Prelude.{ℕ, Bool, true, false, ◌&&◌, Option, none, List, [], is_none}
use launch_code.Prelude.Int.{ℤ}
use launch_code.Text.{Text, codes}
use launch_code.Map.{Map}

abbrev pub app_state_schema_version : ℕ
app_state_schema_version = 1

pub data RuntimeKind : Type 0 where
  python node rust go : RuntimeKind

pub data LaunchMode : Type 0 where
  run debug_mode : LaunchMode

pub data LogRetention : Type 0 where
  temporary persistent : LogRetention

pub record DebugConfig : Type 0 where
  pub host : Text
  pub port : ℕ
  pub wait_for_client : Bool
  pub subprocess : Bool

-- `DebugConfig::default`
abbrev pub debug_config_default : DebugConfig
debug_config_default = record {
  host = codes "127.0.0.1";
  port = 5678;
  wait_for_client = true;
  subprocess = true;
}

pub record LaunchSpec : Type 0 where
  pub name : Text
  pub runtime : RuntimeKind
  pub entry : Text
  pub args : List Text
  pub cwd : Text
  pub env : Map Text
  pub env_files : List Text
  pub env_remove : List Text
  pub managed : Bool
  pub mode : LaunchMode
  pub log_retention : LogRetention
  pub debug : Option DebugConfig
  pub prelaunch_task : Option Text
  pub poststop_task : Option Text

pub data SessionStatus : Type 0 where
  running stopped suspended unknown : SessionStatus

pub record DebugSessionMeta : Type 0 where
  pub host : Text
  pub requested_port : ℕ
  pub active_port : ℕ
  pub fallback_applied : Bool
  pub reconnect_policy : Text
  pub adapter_kind : Text
  pub transport : Text
  pub capabilities : List Text

pub record SessionRecord : Type 0 where
  pub id : Text
  pub spec : LaunchSpec
  pub status : SessionStatus
  pub pid : Option ℕ
  pub supervisor_pid : Option ℕ
  pub log_path : Option Text
  pub debug_meta : Option DebugSessionMeta
  pub created_at : ℕ
  pub updated_at : ℕ
  pub last_exit_code : Option ℤ
  pub restart_count : ℕ

pub record ProjectInfo : Type 0 where
  pub name : Option Text
  pub description : Option Text
  pub repository : Option Text
  pub languages : Option (List Text)
  pub runtimes : Option (List Text)
  pub tools : Option (List Text)
  pub tags : Option (List Text)

-- `ProjectInfo::is_empty`
unfoldable pub project_info_is_empty : ProjectInfo → Bool
project_info_is_empty p =
    is_none p.name
    && is_none p.description
    && is_none p.repository
    && is_none p.languages
    && is_none p.runtimes
    && is_none p.tools
    && is_none p.tags

pub record AppState : Type 0 where
  pub schema_version : ℕ
  pub profiles : Map LaunchSpec
  pub sessions : Map SessionRecord
  pub project_info : Option ProjectInfo

-- `AppState::default`
abbrev pub app_state_default : AppState
app_state_default = record {
  schema_version = app_state_schema_version;
  profiles = [];
  sessions = [];
  project_info = none;
}

-- `matches!(status, SessionStatus::Stopped)`
abbrev pub is_stopped : SessionStatus → Bool
is_stopped stopped = true
is_stopped _ = false

-- `matches!(status, SessionStatus::Running | SessionStatus::Unknown)`
abbrev pub is_running_or_unknown : SessionStatus → Bool
is_running_or_unknown running = true
is_running_or_unknown unknown = true
is_running_or_unknown _ = false

-- `==` of the derived `PartialEq`
unfoldable pub status_eq : SessionStatus → SessionStatus → Bool
status_eq running running = true
status_eq stopped stopped = true
status_eq suspended suspended = true
status_eq unknown unknown = true
status_eq _ _ = false
