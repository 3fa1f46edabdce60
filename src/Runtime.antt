-- ===== src/Runtime.antt =====
-- The command line of a launch: src/runtime. The children hold the runtimes, `Runtime/Backend` the
-- debug back ends.
mod Endpoint
pub mod Backend
pub mod Node
pub mod Rust
pub mod Python
pub mod Go
use launch_code.Prelude.{
  ℕ, zero, suc, ◌≡◌, Bool, true, false, Option, none, some, List, [], ◌∷◌, ◌++◌, Result, ok, err,
  unwrap_or, is_empty, ◌==◌, if◌then◌else◌,
}
use launch_code.Text.{Text, codes, trim, strip_prefix}
use launch_code.Text.Decimal.{to_string, parse_uint, u32_max}
use launch_code.Error.{RuntimeError, missing_entry, invalid_entry}
use launch_code.Map
use launch_code.Model.{
  LaunchSpec, DebugConfig, debug_config_default, python, node, rust, go, run, debug_mode,
}
use launch_code.Runtime.Node
use launch_code.Runtime.Rust
use launch_code.Runtime.Python
use launch_code.Runtime.Go

module _ (join : Text → Text → Text) (exists : Text → Bool) where
  unfoldable pub build_command : LaunchSpec → Result RuntimeError (List Text)
  build_command spec = if is_empty (trim spec.entry) then err missing_entry else elim spec.runtime [
    | python ↦ Python.build join exists spec
    | node ↦ Node.build spec
    | rust ↦ Rust.build spec
    | go ↦ Go.build spec
  ]
