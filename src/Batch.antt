-- ===== src/Batch.antt =====
-- Batch control of sessions: src/app/session_cli/batch.rs and src/app/session_cli/batch/engine.rs,
-- with the filters and labels of src/app/session_cli.rs, src/app/session_cli/view.rs and
-- src/app/spec_ops.rs. `Batch/Selection` chooses the sessions, `Batch/Engine` acts on them and
-- `Batch/Commands` are the commands of a workspace and of all of them.
pub mod Selection
pub mod Engine
pub mod Targets
pub mod Commands
pub mod Global
pub mod Local
use launch_code.Prelude.{
  ℕ, Bool, true, false, not, ◌||◌, ◌&&◌, Option, none, some, List, [], ◌∷◌, leb, ltb, if◌then◌else◌,
}
use launch_code.Prelude.Io.{Io}
use launch_code.Text.{Text, codes}
use launch_code.Error.{AppError}
use launch_code.Model.{
  RuntimeKind, python, node, rust, go, SessionRecord, SessionStatus, running, stopped, suspended,
  unknown,
}

pub data BatchAction : Type 0 where
  stop_action restart_action suspend_action resume_action : BatchAction

pub data ListStatusArg : Type 0 where
  running_arg stopped_arg suspended_arg unknown_arg : ListStatusArg

pub data BatchSortArg : Type 0 where
  by_id by_name by_status by_runtime : BatchSortArg

pub record ListFilters : Type 0 where
  pub status_filter : Option ListStatusArg
  pub runtime_filter : Option RuntimeKind
  pub name_filter : Option Text

pub record BatchSelector : Type 0 where
  pub status : Option ListStatusArg
  pub runtime : Option RuntimeKind
  pub name_filter : Option Text
  pub dry_run : Bool

pub record BatchExecutionControl : Type 0 where
  pub continue_on_error : Bool
  pub max_failures : ℕ

pub record BatchExecutionPlan : Type 0 where
  pub sort : BatchSortArg
  pub limit : Option ℕ
  pub summary : Bool
  pub jobs : ℕ

pub record BatchSessionRow : Type 0 where
  pub id : Text
  pub runtime : Text
  pub status_before : Text
  pub status_after : Option Text
  pub link_name : Option Text
  pub link_path : Option Text
  pub ok : Bool
  pub error : Option Text

pub record BatchLinkErrorRow : Type 0 where
  pub link_name : Option Text
  pub link_path : Option Text
  pub error : Text

pub record BatchExecutionResult : Type 0 where
  pub rows : List BatchSessionRow
  pub selected_count : ℕ
  pub processed_count : ℕ
  pub link_errors : List BatchLinkErrorRow
  pub stopped_early : Bool

-- `BatchSelector::filters`
unfoldable pub filters : BatchSelector → ListFilters
filters selector = record {
  status_filter = selector.status;
  runtime_filter = selector.runtime;
  name_filter = selector.name_filter;
}

unfoldable pub should_stop_after_failure : BatchExecutionControl → ℕ → Bool
should_stop_after_failure control failure_count =
    if not control.continue_on_error
    then true
    else ltb 0 control.max_failures && leb control.max_failures failure_count

unfoldable pub runtime_label : RuntimeKind → Text
runtime_label python = codes "python"
runtime_label node = codes "node"
runtime_label rust = codes "rust"
runtime_label go = codes "go"

unfoldable pub status_label : SessionStatus → Text
status_label running = codes "running"
status_label stopped = codes "stopped"
status_label suspended = codes "suspended"
status_label unknown = codes "unknown"

-- `==` of the derived `PartialEq`
unfoldable pub runtime_eq : RuntimeKind → RuntimeKind → Bool
runtime_eq python python = true
runtime_eq node node = true
runtime_eq rust rust = true
runtime_eq go go = true
runtime_eq _ _ = false

unfoldable pub matches_list_status : ListStatusArg → SessionStatus → Bool
matches_list_status running_arg running = true
matches_list_status stopped_arg stopped = true
matches_list_status suspended_arg suspended = true
matches_list_status unknown_arg unknown = true
matches_list_status _ _ = false

-- What a batch asks of the sessions of a workspace: `api_list_sessions` and the control operations
-- of the session interface.
pub record SessionApi (W : Type 0) : Type 0 where
  pub list : Io W AppError (List SessionRecord)
  pub stop : Text → Bool → ℕ → Io W AppError SessionRecord
  pub restart : Text → Bool → ℕ → Io W AppError SessionRecord
  pub suspend : Text → Io W AppError SessionRecord
  pub resume : Text → Io W AppError SessionRecord
