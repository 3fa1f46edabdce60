-- ===== src/Runtime/Rust.antt =====
-- src/runtime/rust_runtime.rs
use launch_code.Prelude.{List, [], ◌∷◌, Result, ok, is_empty, if◌then◌else◌}
use launch_code.Text.{Text, codes}
use launch_code.Error.{RuntimeError}
use launch_code.Model.{LaunchSpec}

unfoldable pub build : LaunchSpec → Result RuntimeError (List Text)
build spec = ok (
    codes "cargo"
    ∷ codes "run"
    ∷ codes "--bin"
    ∷ spec.entry
    ∷ (if is_empty spec.args then [] else codes "--" ∷ spec.args))
