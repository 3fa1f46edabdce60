-- ===== src/Dap/Subprocess.antt =====
-- A child process of a debugged session becomes a session: src/dap/subprocess.rs. The fields of the
-- event's body are read through `ValueOps`, the methods of `serde_json::Value`.
pub mod Fresh
use launch_code.Prelude.{
  ℕ, zero, suc, ◌+◌, ◌≡◌, Bool, true, false, not, Option, none, some, List, [], ◌∷◌, ◌++◌, Result,
  ok, err, ok_or, length, is_none, leb, if◌then◌else◌,
}
use launch_code.Prelude.Io.{Io, ◌>>=◌, pure, lift}
use launch_code.Text.{Text, codes}
use launch_code.Text.Decimal.{to_string, parse_uint, u16_max, u32_max}
use launch_code.Error.{AppError, dap, session_not_found, state}
use launch_code.Map
use launch_code.Map.{Map}
use launch_code.Map.Free.{suffixed}
use launch_code.Model.{AppState, SessionRecord, LaunchSpec, DebugConfig, running}
use launch_code.Runtime.Backend.{python_debugpy, build_session_meta}
use launch_code.State.Store.{Serde, World, update}
use launch_code.Sessions.{Machine}
use launch_code.Sessions.Reconcile.{unix_timestamp_secs}

pub record ValueOps : Type 1 where
  pub Value : Type 0
  pub get : Text → Value → Option Value
  pub as_str : Value → Option Text
  pub as_u64 : Value → Option ℕ
  pub is_object : Value → Bool

module _ (value : ValueOps) where
  open value use {Value, get, as_str, as_u64, is_object}

  unfoldable pub parse_optional : ℕ → Value → Option ℕ
  parse_optional max v = elim (as_u64 v) [
    | some num ↦ if leb num max then some num else none
    | none ↦ elim (as_str v) [ none ↦ none | some text ↦ parse_uint max text ]
  ]

  abbrev pub parse_optional_u16 : Value → Option ℕ
  parse_optional_u16 = parse_optional u16_max

  abbrev pub parse_optional_u32 : Value → Option ℕ
  parse_optional_u32 = parse_optional u32_max

  abbrev and_then : {A B : Type 0} → Option A → (A → Option B) → Option B
  and_then none f = none
  and_then (some a) f = f a

  unfoldable pub host_port : Text → Text → Value → Result AppError (Text × ℕ)
  host_port no_host no_port from = elim (and_then (get (codes "host") from) as_str) [
    | none ↦ err (dap no_host)
    | some host ↦ elim (and_then (get (codes "port") from) parse_optional_u16) [
      | none ↦ err (dap no_port)
      | some port ↦ ok (host, port)
    ]
  ]

  -- The body is an object; the inner object `connect` is preferred.
  unfoldable pub parse_attach_host_port : Value → Result AppError (Text × ℕ)
  parse_attach_host_port body =
      let direct =
        host_port (codes "host is required when connect is missing")
          (codes "port is required when connect is missing") body in
      elim (get (codes "connect") body) [
        | none ↦ direct
        | some connect ↦
            if is_object connect
            then host_port (codes "connect.host is required") (codes "connect.port is required")
                connect
            else direct
      ]

-- The part of a `DebugpyAttachTarget` that the registration reads.
pub record DebugpyAttachTarget : Type 0 where
  pub host : Text
  pub port : ℕ
  pub process_id : Option ℕ

-- The loop of `unique_session_id`; one round more than there are sessions is enough.
unfoldable pub search_suffix : Map SessionRecord → Text → ℕ → ℕ → Option Text
search_suffix sessions base zero suffix = none
search_suffix sessions base (suc rounds) suffix =
    let rest = search_suffix sessions base rounds (suffix + 1) in
    if Map.contains_key (suffixed base suffix) sessions then rest else some (suffixed base suffix)

unfoldable pub unique_session_id : Map SessionRecord → Text → Bool → Option Text
unfolding search_suffix
unique_session_id sessions base allow_suffix =
    if Map.contains_key base sessions
    then (if allow_suffix then search_suffix sessions base (suc (length sessions)) 1 else none)
    else some base

unfoldable pub child_debug : DebugpyAttachTarget → Option DebugConfig → DebugConfig
child_debug target (some debug) = record debug {
  host = target.host;
  port = target.port;
  wait_for_client = false;
}
child_debug target none = record {
  host = target.host;
  port = target.port;
  wait_for_client = false;
  subprocess = true;
}

unfoldable pub child_base : Text → DebugpyAttachTarget → Option Text → Text
child_base parent_session_id target (some value) = value
child_base parent_session_id target none =
    parent_session_id
    ++ codes "-subprocess-"
    ++ to_string (elim target.process_id [ some pid ↦ pid | none ↦ target.port ])

abbrev or_else : {A : Type 0} → Option A → Option A → Option A
or_else (some a) b = some a
or_else none b = b

unfoldable pub child_session : Text → DebugpyAttachTarget → SessionRecord → ℕ → SessionRecord
child_session id target parent now = record {
  id = id;
  spec = record parent.spec { debug = some (child_debug target parent.spec.debug) };
  status = running;
  pid = target.process_id;
  supervisor_pid = or_else parent.pid parent.supervisor_pid;
  log_path = parent.log_path;
  debug_meta = some (build_session_meta python_debugpy target.host target.port target.port false);
  created_at = now;
  updated_at = now;
  last_exit_code = none;
  restart_count = 0;
}

module _ (machine : Machine) where
  open machine use {Os}

  unfoldable pub register_mutation :
      Text → DebugpyAttachTarget → Option Text → AppState → Io Os AppError (AppState × Text)
  register_mutation parent_session_id target requested app = do
    parent ←
        lift (ok_or (Map.get parent_session_id app.sessions) (session_not_found parent_session_id))
    let base = child_base parent_session_id target requested
    id ← lift (
        ok_or (unique_session_id app.sessions base (is_none requested))
          (dap (codes "session id already exists: " ++ base)))
    now ← unix_timestamp_secs machine
    pure (
      record app { sessions = Map.insert id (child_session id target parent now) app.sessions },
      id,
    )

  unfoldable pub register_subprocess_session :
      Serde → Text → DebugpyAttachTarget → Option Text → Io (World Os) AppError Text
  register_subprocess_session json parent_session_id target requested =
      update json state (register_mutation parent_session_id target requested)
