-- ===== src/State/Migrate.antt =====
-- `migrate_state` and what it calls (src/state.rs).
use launch_code.Prelude.{
  ◌≡◌, refl, inl, inr, Bool-cases, Option-cases, true, false, ◌||◌, Option, none, some, List, [],
  ◌∷◌, arith, Result, ok, err, ltb, is_empty, if◌then◌else◌,
}
use launch_code.Text
use launch_code.Text.{Text, codes, trim}
use launch_code.Error.{StateError, unsupported_state_schema_version}
use launch_code.Map.{Map}
use launch_code.Model.{
  AppState, SessionRecord, DebugSessionMeta, ProjectInfo, RuntimeKind, python, node, rust, go,
  app_state_schema_version, project_info_is_empty,
}

unfoldable pub default_adapter_kind : RuntimeKind → Text
default_adapter_kind python = codes "python-debugpy"
default_adapter_kind node = codes "node-inspector"
default_adapter_kind rust = codes "unknown"
default_adapter_kind go = codes "go-delve"

unfoldable pub default_capabilities : RuntimeKind → List Text
default_capabilities python =
    codes "vscode_attach" ∷ codes "dap" ∷ codes "dap_bootstrap" ∷ codes "dap_subprocess_adopt" ∷ []
default_capabilities node =
    codes "vscode_attach" ∷ codes "inspector_attach" ∷ codes "dap_bridge" ∷ []
default_capabilities rust = codes "vscode_attach" ∷ []
default_capabilities go = codes "vscode_attach" ∷ codes "dap" ∷ codes "dap_bootstrap" ∷ []

-- The three repairs in the loop of `migrate_legacy_debug_meta`.
unfoldable pub fill_adapter_kind : RuntimeKind → Text → Text
fill_adapter_kind runtime kind =
    if is_empty (trim kind) || Text.eq kind (codes "unknown")
    then default_adapter_kind runtime
    else kind

unfoldable pub fill_transport : Text → Text
fill_transport transport = if is_empty (trim transport) then codes "tcp" else transport

unfoldable pub fill_capabilities : RuntimeKind → List Text → List Text
fill_capabilities runtime capabilities =
    if is_empty capabilities then default_capabilities runtime else capabilities

-- The body of the loop of `migrate_legacy_debug_meta`.
unfoldable pub migrate_meta : RuntimeKind → DebugSessionMeta → DebugSessionMeta
migrate_meta runtime meta = record meta {
  adapter_kind = fill_adapter_kind runtime meta.adapter_kind;
  transport = fill_transport meta.transport;
  capabilities = fill_capabilities runtime meta.capabilities;
}

unfoldable pub migrate_session : SessionRecord → SessionRecord
migrate_session session = elim session.debug_meta [
  | none ↦ session
  | some meta ↦ record session { debug_meta = some (migrate_meta session.spec.runtime meta) }
]

unfoldable pub migrate_sessions : Map SessionRecord → Map SessionRecord
migrate_sessions [] = []
migrate_sessions ((id, session) ∷ rest) = (id, migrate_session session) ∷ migrate_sessions rest

abbrev drop_empty_info : Option ProjectInfo → Option ProjectInfo
drop_empty_info none = none
drop_empty_info (some info) = if project_info_is_empty info then none else some info

-- The result is the migrated state; on an error nothing was changed.
unfoldable pub migrate_state : AppState → Result StateError AppState
migrate_state state =
    if ltb app_state_schema_version state.schema_version
    then err (unsupported_state_schema_version state.schema_version app_state_schema_version)
    else ok (record state {
      project_info = drop_empty_info state.project_info;
      sessions = migrate_sessions state.sessions;
      schema_version =
          if ltb state.schema_version app_state_schema_version
          then app_state_schema_version
          else state.schema_version;
    })

fill_adapter_kind_default :
    (runtime : RuntimeKind)
    → fill_adapter_kind runtime (default_adapter_kind runtime) ≡ default_adapter_kind runtime
unfolding fill_adapter_kind default_adapter_kind trim Text.eq Text.is_whitespace
fill_adapter_kind_default python = refl
fill_adapter_kind_default node = refl
fill_adapter_kind_default rust = refl
fill_adapter_kind_default go = refl

fill_adapter_kind_idem :
    (runtime : RuntimeKind) (kind : Text)
    → fill_adapter_kind runtime (fill_adapter_kind runtime kind) ≡ fill_adapter_kind runtime kind
unfolding fill_adapter_kind default_adapter_kind
fill_adapter_kind_idem runtime kind =
    elim (Bool-cases (is_empty (trim kind) || Text.eq kind (codes "unknown"))) [
      | inl bad ↦ rw (replaced bad) (fill_adapter_kind_default runtime)
      | inr fine ↦ rw (kept fine) (kept fine)
    ]
  where
    replaced :
        (is_empty (trim kind) || Text.eq kind (codes "unknown")) ≡ true
        → fill_adapter_kind runtime kind ≡ default_adapter_kind runtime
    replaced bad = rw (bad, fill_adapter_kind)

    kept :
        (is_empty (trim kind) || Text.eq kind (codes "unknown")) ≡ false
        → fill_adapter_kind runtime kind ≡ kind
    kept fine = rw (fine, fill_adapter_kind)

trim_tcp : trim (codes "tcp") ≡ codes "tcp"
unfolding trim Text.is_whitespace
trim_tcp = refl

fill_transport_idem : (t : Text) → fill_transport (fill_transport t) ≡ fill_transport t
unfolding fill_transport
fill_transport_idem t = elim (Bool-cases (is_empty (trim t))) [
  | inl blank ↦ rw blank (rw trim_tcp)
  | inr full ↦ rw full (rw full)
]

fill_capabilities_idem :
    (runtime : RuntimeKind) (l : List Text)
    → fill_capabilities runtime (fill_capabilities runtime l) ≡ fill_capabilities runtime l
unfolding fill_capabilities default_capabilities
fill_capabilities_idem runtime (c ∷ l) = refl
fill_capabilities_idem python [] = refl
fill_capabilities_idem node [] = refl
fill_capabilities_idem rust [] = refl
fill_capabilities_idem go [] = refl

migrate_meta_idem :
    (runtime : RuntimeKind) (meta : DebugSessionMeta)
    → migrate_meta runtime (migrate_meta runtime meta) ≡ migrate_meta runtime meta
unfolding migrate_meta
migrate_meta_idem runtime meta = ground (
  arith,
  fill_adapter_kind_idem runtime meta.adapter_kind,
  fill_transport_idem meta.transport,
  fill_capabilities_idem runtime meta.capabilities,
)

migrate_session_idem :
    (session : SessionRecord) → migrate_session (migrate_session session) ≡ migrate_session session
unfolding migrate_session
migrate_session_idem session = elim (Option-cases session.debug_meta) [
  | inl e ↦ ground arith
  | inr (meta, e) ↦ ground (arith, migrate_meta_idem session.spec.runtime meta)
]

migrate_sessions_idem :
    (sessions : Map SessionRecord)
    → migrate_sessions (migrate_sessions sessions) ≡ migrate_sessions sessions
unfolding migrate_sessions
migrate_sessions_idem [] = refl
migrate_sessions_idem ((id, session) ∷ rest) =
    cc (migrate_session_idem session, migrate_sessions_idem rest)

drop_empty_info_idem :
    (info : Option ProjectInfo) → drop_empty_info (drop_empty_info info) ≡ drop_empty_info info
drop_empty_info_idem info = ground arith

-- A migrated state has the current version, and migrating it again changes nothing.
pub migrate_state_idem :
    (state : AppState) {next : AppState}
    → migrate_state state ≡ ok next
    → (next.schema_version ≡ app_state_schema_version) × (migrate_state next ≡ ok next)
unfolding migrate_state
migrate_state_idem state {next} h =
    ground (arith, migrate_sessions_idem state.sessions, drop_empty_info_idem state.project_info)
