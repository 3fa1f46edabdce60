-- ===== src/Runtime/Endpoint.antt =====
-- The debug endpoint that a command line names.
use launch_code.Prelude.{◌∷◌, ◌++◌, unwrap_or}
use launch_code.Text.{Text}
use launch_code.Text.Decimal.{to_string}
use launch_code.Model.{LaunchSpec, DebugConfig, debug_config_default}

unfoldable pub endpoint : DebugConfig → Text
endpoint debug = debug.host ++ b':' ∷ to_string debug.port

abbrev pub debug_of : LaunchSpec → DebugConfig
debug_of spec = unwrap_or spec.debug debug_config_default
