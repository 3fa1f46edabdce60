-- ===== src/Runtime/Go.antt =====
-- src/runtime/go.rs
use launch_code.Prelude.{
  ℕ, none, some, List, [], ◌∷◌, ◌++◌, Result, ok, err, is_empty, ◌==◌, if◌then◌else◌,
}
use launch_code.Text.{Text, codes, trim, strip_prefix}
use launch_code.Text.Decimal.{to_string, parse_uint, u32_max}
use launch_code.Error.{RuntimeError, invalid_entry}
use launch_code.Model.{LaunchSpec, DebugConfig, run, debug_mode}
use launch_code.Runtime.Endpoint.{endpoint, debug_of}

pub data GoMode : Type 0 where
  attach test debug_target : GoMode

unfoldable pub mode_text : GoMode → Text
mode_text attach = codes "attach"
mode_text test = codes "test"
mode_text debug_target = codes "debug"

-- The mode and the target that an entry names.
unfoldable pub go_target : Text → GoMode × Text
go_target entry = elim (strip_prefix (codes "attach:") entry) [
  | some raw ↦ (attach, trim raw)
  | none ↦ elim (strip_prefix (codes "test:") entry) [
    | some raw ↦ (test, trim raw)
    | none ↦ (debug_target, entry)
  ]
]

unfoldable pub attach_pid : Text → Result RuntimeError ℕ
attach_pid target =
    let refused = err (invalid_entry (codes "go attach target must be a positive process id")) in
    elim (parse_uint u32_max target) [
      | none ↦ refused
      | some pid ↦ if pid == 0 then refused else ok pid
    ]

unfoldable pub command_head : GoMode → DebugConfig → List Text
unfolding mode_text endpoint
command_head go_mode debug =
    codes "dlv"
    ∷ mode_text go_mode
    ∷ codes "--headless"
    ∷ codes "--accept-multiclient"
    ∷ codes "--api-version=2"
    ∷ (codes "--listen=" ++ endpoint debug)
    ∷ (if debug.wait_for_client then [] else codes "--continue" ∷ [])

unfoldable pub command_tail : GoMode → Text → List Text → Result RuntimeError (List Text)
command_tail attach target args = elim (attach_pid target) [
  | err e ↦ err e
  | ok pid ↦ ok (to_string pid ∷ [])
]
command_tail _ target args = ok (target ∷ (if is_empty args then [] else codes "--" ∷ args))

unfoldable pub build_debug : LaunchSpec → GoMode × Text → Result RuntimeError (List Text)
build_debug spec (go_mode, target) =
    if is_empty target
    then err (invalid_entry (codes "go debug target is required"))
    else elim (command_tail go_mode target spec.args) [
      | err e ↦ err e
      | ok tail ↦ ok (command_head go_mode (debug_of spec) ++ tail)
    ]

unfoldable pub build : LaunchSpec → Result RuntimeError (List Text)
unfolding go_target
build spec = elim spec.mode [
  | run ↦ ok (codes "go" ∷ codes "run" ∷ spec.entry ∷ spec.args)
  | debug_mode ↦ build_debug spec (go_target (trim spec.entry))
]
