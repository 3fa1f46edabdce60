-- ===== src/Runtime/Backend.antt =====
-- What a debug adapter can do: src/debug_backend.rs. The attach documents for editors are JSON for
-- output and are left out.
use launch_code.Prelude.{ℕ, Bool, true, false, Option, none, some, List, [], ◌∷◌}
use launch_code.Text.{Text, codes}
use launch_code.Model.{RuntimeKind, python, node, rust, go, DebugSessionMeta}

pub data DebugBackendKind : Type 0 where
  python_debugpy node_inspector go_delve : DebugBackendKind

unfoldable pub for_runtime : RuntimeKind → Option DebugBackendKind
for_runtime python = some python_debugpy
for_runtime node = some node_inspector
for_runtime rust = none
for_runtime go = some go_delve

unfoldable pub requires_python_debugpy : DebugBackendKind → Bool
requires_python_debugpy python_debugpy = true
requires_python_debugpy _ = false

unfoldable pub supports_dap : DebugBackendKind → Bool
supports_dap node_inspector = false
supports_dap _ = true

unfoldable pub supports_dap_bootstrap : DebugBackendKind → Bool
supports_dap_bootstrap node_inspector = false
supports_dap_bootstrap _ = true

unfoldable pub reconnect_policy : DebugBackendKind → Text
reconnect_policy node_inspector = codes "manual-reconnect"
reconnect_policy _ = codes "auto-retry"

unfoldable pub adapter_kind : DebugBackendKind → Text
adapter_kind python_debugpy = codes "python-debugpy"
adapter_kind node_inspector = codes "node-inspector"
adapter_kind go_delve = codes "go-delve"

unfoldable pub capabilities : DebugBackendKind → List Text
capabilities python_debugpy =
    codes "vscode_attach" ∷ codes "dap" ∷ codes "dap_bootstrap" ∷ codes "dap_subprocess_adopt" ∷ []
capabilities node_inspector =
    codes "vscode_attach" ∷ codes "inspector_attach" ∷ codes "dap_bridge" ∷ []
capabilities go_delve = codes "vscode_attach" ∷ codes "dap" ∷ codes "dap_bootstrap" ∷ []

unfoldable pub build_session_meta : DebugBackendKind → Text → ℕ → ℕ → Bool → DebugSessionMeta
build_session_meta kind host requested_port active_port fallback_applied = record {
  host = host;
  requested_port = requested_port;
  active_port = active_port;
  fallback_applied = fallback_applied;
  reconnect_policy = reconnect_policy kind;
  adapter_kind = adapter_kind kind;
  transport = codes "tcp";
  capabilities = capabilities kind;
}
