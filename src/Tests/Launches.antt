-- ===== src/Tests/Launches.antt =====
-- Launch files and logs at concrete inputs.
use launch_code.Prelude.{min, ◌≡◌, refl, true, false, Option, none, some, [], ◌∷◌, Result, ok}
use launch_code.Text
use launch_code.Text.{
  Text, codes, trim, trim_start, trim_start_by, trim_end_by, is_whitespace, to_ascii_lowercase,
  lower, starts_with, strip_prefix,
}
use launch_code.Text.Lines.{lines}
use launch_code.Map
use launch_code.Map.{Map}
use launch_code.Error.{IoError}
use launch_code.Model.{LaunchSpec, go, debug_mode, temporary, debug_config_default}
use launch_code.LaunchConfig.{
  Outside, LaunchConfiguration, LaunchRequest, load_launch_spec, resolve_launch_file, launch_spec,
  find_configuration, infer_workspace_root, map_runtime, runtime_named, resolve_path_string,
  launch_mode, debug_config,
}
use launch_code.LaunchConfig.Template.{
  expand_env_tokens, expand_template_string, expand_from, replace_from,
}
use launch_code.LaunchConfig.Template.Tokens.{
  Template, end_of, text_then, dollar, token, IsPlain, render, value, expand_env_tokens-render,
}
use launch_code.LaunchConfig.Environment.{
  LaunchEnvValue, string, null, launch_environment, change_variable, change_variables, set_variable,
  set_interpreter, env_value_to_string,
}
use launch_code.LaunchConfig.Variables.{found, wanted, launch_environment-wanted}
use launch_code.LaunchConfig.Consistent.{IsConsistent, load_launch_spec-IsConsistent}
use launch_code.Logs.Tail.{Bytes, read_log_tail, split_last, join_lines, max_log_tail_lines}
use launch_code.Logs.Tail.Last.{DecodeLaws, read_log_tail-last}

abbrev home : Text → Option Text
home name = some (codes "/home")

-- a/${env:HOME}/b$5
abbrev template : Template
template =
    text_then (codes "a/")
      (token (codes "HOME") (text_then (codes "/b") (dollar (end_of (codes "5")))))

template-IsPlain : IsPlain template
unfolding render strip_prefix
template-IsPlain = (
  (refl, (refl, tt)),
  ((refl, (refl, (refl, (refl, tt)))), ((refl, (refl, tt)), (refl, (refl, tt)))),
)

expand_env_tokens-render_example : expand_env_tokens home (render template) ≡ value home template
expand_env_tokens-render_example = expand_env_tokens-render home template template-IsPlain

abbrev from_file : Map Text
from_file = (codes "A", codes "1") ∷ (codes "B", codes "2") ∷ []

abbrev configured : Map LaunchEnvValue
configured = (codes "A", null) ∷ (codes "C", string (codes "3")) ∷ []

launch_environment-wanted_example :
    found (codes "A") (launch_environment from_file configured (some (codes "python3")))
    ≡ wanted from_file configured (some (codes "python3")) (codes "A")
unfolding Map.get Text.eq
launch_environment-wanted_example =
    launch_environment-wanted from_file configured (some (codes "python3")) (codes "A")
      (refl, (refl, tt)) (refl, (refl, tt))

abbrev configuration : LaunchConfiguration
configuration = record {
  name = codes "web";
  runtime_type = codes "go";
  request = none;
  program = some (codes "main.go");
  args = none;
  cwd = none;
  env = some configured;
  env_file = none;
  python = none;
  python_path = none;
  managed = none;
  log_retention = none;
  debug_host = none;
  debug_port = none;
  wait_for_client = none;
  sub_process = none;
  prelaunch_task = none;
  post_debug_task = none;
  post_stop_task = none;
}

abbrev one_file : Outside
one_file = record {
  exists = λ path. true;
  parent = λ path. none;
  file_name = λ path. none;
  join = λ base path. path;
  is_absolute = λ path. false;
  variable = home;
  read_to_string = λ path. ok [];
  from_str = λ payload. ok (record { configurations = configuration ∷ [] });
}

abbrev request : LaunchRequest
request = record {
  name = codes "web";
  mode = debug_mode;
  managed_override = none;
  log_retention_override = none;
  launch_file = none;
}

abbrev loaded_spec : LaunchSpec
loaded_spec = record {
  name = codes "web";
  runtime = go;
  entry = codes "main.go";
  args = [];
  cwd = codes ".";
  env = (codes "C", codes "3") ∷ [];
  env_files = [];
  env_remove = codes "A" ∷ [];
  managed = false;
  mode = debug_mode;
  log_retention = temporary;
  debug = some debug_config_default;
  prelaunch_task = none;
  poststop_task = none;
}

loads : load_launch_spec one_file (codes "/w") request ≡ ok loaded_spec
unfolding load_launch_spec resolve_launch_file find_configuration infer_workspace_root launch_spec
    launch_environment Map.get Map.insert Map.remove Map.keys Map.extend Text.eq Text.lt map_runtime
    resolve_path_string expand_template_string launch_mode debug_config change_variable set_variable
    env_value_to_string to_ascii_lowercase lower replace_from expand_from starts_with strip_prefix
    change_variables set_interpreter runtime_named
loads = refl

load_launch_spec-IsConsistent_example : IsConsistent loaded_spec
load_launch_spec-IsConsistent_example =
    load_launch_spec-IsConsistent one_file (codes "/w") request loaded_spec loads

-- The identity on bytes keeps newlines.
ascii-DecodeLaws : DecodeLaws (λ bytes. bytes)
ascii-DecodeLaws = record { decode-nil = refl; decode-newline = λ a b. refl }

abbrev log_file : Bytes
log_file = codes "one\ntwo\nthree\n"

abbrev open_log : Text → Result IoError Bytes
open_log path = ok log_file

read_log_tail-last_example :
    read_log_tail (λ bytes. bytes) open_log (some (codes "log")) 2
    ≡ ok (join_lines (split_last (min 2 max_log_tail_lines) (lines log_file)))
unfolding trim trim_start trim_start_by trim_end_by is_whitespace
read_log_tail-last_example =
    read_log_tail-last (λ bytes. bytes) ascii-DecodeLaws open_log (codes "log") 2 log_file refl refl
