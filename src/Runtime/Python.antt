-- ===== src/Runtime/Python.antt =====
-- src/runtime/python.rs; joining and testing paths are parameters.
use launch_code.Prelude.{
  Bool, Option, none, some, List, [], ◌∷◌, ◌++◌, Result, ok, unwrap_or, if◌then◌else◌,
}
use launch_code.Text.{Text, codes}
use launch_code.Error.{RuntimeError}
use launch_code.Map
use launch_code.Model.{LaunchSpec, run, debug_mode}
use launch_code.Runtime.Endpoint.{endpoint, debug_of}

-- The first candidate that exists under `cwd`; `join` and `exists` are those of `Path`.
unfoldable pub first_existing : (Text → Bool) → List Text → Option Text
first_existing exists [] = none
first_existing exists (path ∷ paths) =
    let rest = first_existing exists paths in if exists path then some path else rest

abbrev pub candidates : List Text
candidates =
    codes ".venv/bin/python"
    ∷ codes "venv/bin/python"
    ∷ codes ".venv/Scripts/python.exe"
    ∷ codes "venv/Scripts/python.exe"
    ∷ []

abbrev join_all : (Text → Text) → List Text → List Text
join_all join [] = []
join_all join (c ∷ cs) = join c ∷ join_all join cs

module _ (join : Text → Text → Text) (exists : Text → Bool) where
  unfoldable pub python_executable : LaunchSpec → Text
  python_executable spec = elim (Map.get (codes "PYTHON_BIN") spec.env) [
    | some explicit ↦ explicit
    | none ↦
        unwrap_or (first_existing exists (join_all (join spec.cwd) candidates)) (codes "python")
  ]

  unfoldable pub build : LaunchSpec → Result RuntimeError (List Text)
  unfolding endpoint
  build spec = elim spec.mode [
    | run ↦ ok (python_executable spec ∷ spec.entry ∷ spec.args)
    | debug_mode ↦ ok (
        python_executable spec
        ∷ codes "-m"
        ∷ codes "debugpy"
        ∷ codes "--listen"
        ∷ endpoint (debug_of spec)
        ∷ codes "--configure-subProcess"
        ∷ (if (debug_of spec).subprocess then codes "true" else codes "false")
        ∷ ((if (debug_of spec).wait_for_client then codes "--wait-for-client" ∷ [] else [])
            ++ spec.entry ∷ spec.args))
  ]
