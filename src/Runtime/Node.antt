-- ===== src/Runtime/Node.antt =====
-- src/runtime/node.rs
use launch_code.Prelude.{List, ◌∷◌, ◌++◌, Result, ok, if◌then◌else◌}
use launch_code.Text.{Text, codes}
use launch_code.Error.{RuntimeError}
use launch_code.Model.{LaunchSpec, run, debug_mode}
use launch_code.Runtime.Endpoint.{endpoint, debug_of}

unfoldable pub build : LaunchSpec → Result RuntimeError (List Text)
unfolding endpoint
build spec = elim spec.mode [
  | run ↦ ok (codes "node" ∷ spec.entry ∷ spec.args)
  | debug_mode ↦ ok (
      codes "node"
      ∷ ((if (debug_of spec).wait_for_client then codes "--inspect-brk" else codes "--inspect")
          ++ b'=' ∷ endpoint (debug_of spec))
      ∷ spec.entry
      ∷ spec.args)
]
