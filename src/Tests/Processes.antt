-- ===== src/Tests/Processes.antt =====
-- Processes at concrete inputs.
use launch_code.Prelude.{
  ℕ, ◌+◌, ◌≤◌, ◌≡◌, refl, true, false, Option, none, some, [], ◌∷◌, ok, arith, ltb, if◌then◌else◌,
}
use launch_code.Text
use launch_code.Text.{Text, codes, trim, mem}
use launch_code.Map
use launch_code.Map.{Map}
use launch_code.Error.{other_kind}
use launch_code.Process.{System, OsError, Target, process, group, negate}
use launch_code.Prelude.Int.{pos, negsuc}
use launch_code.Process.Signal.{
  is_process_alive, alive_after, is_zombie_process, is_zombie_output, send_signal_group,
  group_after, wait_for_exit, stop_process_with_options,
}
use launch_code.Process.Signal.Waited.{Clock, Waited, wait_for_exit-Waited}
use launch_code.Process.Signal.Stopping.{Outcome, stop_process_with_options-Outcome}
use launch_code.Process.Signal.Exiting.{Exits, stop_process_with_options-Exits}
use launch_code.Process.Spawn.{base_process_command}
use launch_code.Process.Spawn.Environment.{
  child_variable, launch_variable, base_process_command-launch_variable,
}

abbrev no_process : OsError
no_process = record { errno = 3; error = record { kind = other_kind; message = [] } }

abbrev kill_until_hundred : Target → ℕ → Option OsError × ℕ
kill_until_hundred (pos pid) os = (if ltb os 100 then none else some no_process, os)
kill_until_hundred (negsuc pid) os = (none, os)

-- The state is the time; every process exits at a hundred milliseconds.
abbrev pub short_lived : System
short_lived = record {
  Os = ℕ;
  esrch = 3;
  eperm = 1;
  sigterm = 15;
  sigkill = 9;
  sigstop = 19;
  sigcont = 18;
  kill = λ target sig os. kill_until_hundred target os;
  ps = λ args os. (none, os);
  waitpid = λ pid os. os;
  now = λ os. (os, os);
  sleep = λ ms os. os + ms;
  create_dir_all = λ path os. (ok tt, os);
  open_append = λ path os. (ok tt, os);
  spawn = λ cmd os. (ok 7, os);
  wait = λ pid os. (ok none, os);
  take_pipe = λ pid pipe os. (true, os);
  spawn_pump = λ pid pipe log os. os;
  join_pump = λ pid pipe os. (some (ok tt), os);
  parent = λ path. none;
}

is_process_alive-short_lived : (os : ℕ) → is_process_alive short_lived 7 os ≡ (ltb os 100, os)
unfolding process is_process_alive alive_after is_zombie_process is_zombie_output
is_process_alive-short_lived os = ground arith

abbrev short_lived_clock : Clock short_lived 7
short_lived_clock = record {
  time = λ os. os;
  now_reads = λ os. refl;
  now_passes = λ os. omega arith;
  probe_passes = λ os. ground (arith, is_process_alive-short_lived os);
  sleep_passes = λ ms os. omega arith;
}

wait_for_exit-Waited_example : Waited short_lived 7 (0 + 70) 0 (wait_for_exit short_lived 7 70 0)
wait_for_exit-Waited_example = wait_for_exit-Waited short_lived 7 short_lived_clock 70 0

stop_process_with_options-Outcome_example :
    Outcome short_lived 7 false 20 0 (stop_process_with_options short_lived 7 false 20 0)
stop_process_with_options-Outcome_example =
    stop_process_with_options-Outcome short_lived 7 false 20 0

abbrev short_lived_exits : Exits short_lived 7 short_lived_clock 100
short_lived_exits = record {
  Gone = λ os. 100 ≤ os;
  in_time = λ os h. h;
  gone_reports = λ os h. ground (arith, is_process_alive-short_lived os);
  reported = λ os u h. ground (arith, is_process_alive-short_lived os, h);
}

term_sent : send_signal_group short_lived 7 15 0 ≡ (ok tt, 0)
unfolding send_signal_group group_after group negate process
term_sent = refl

stop_process_with_options-Exits_example :
    (t : ℕ) × (stop_process_with_options short_lived 7 false 150 0 ≡ (ok tt, t))
stop_process_with_options-Exits_example =
    stop_process_with_options-Exits short_lived 7 short_lived_clock 100 short_lived_exits false 150
      0 0 term_sent (omega arith)

abbrev inherited : Text → Option Text
inherited key = some (codes "parent")

abbrev launch_env : Map Text
launch_env = (codes "A", codes "1") ∷ (codes "B", codes "2") ∷ []

base_process_command-launch_variable_example :
    child_variable inherited
      (base_process_command (codes "sh") [] (codes ".") launch_env (codes "A" ∷ codes "C" ∷ []))
      (codes "A")
    ≡ launch_variable inherited launch_env (codes "A" ∷ codes "C" ∷ []) (codes "A")
unfolding Map.get Text.eq
base_process_command-launch_variable_example =
    base_process_command-launch_variable inherited (codes "sh") [] (codes ".") launch_env
      (codes "A" ∷ codes "C" ∷ []) (codes "A") (refl, (refl, tt))
