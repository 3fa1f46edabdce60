-- ===== src/Error/Codes.antt =====
-- What an error becomes outside: its code and exit status (src/error.rs) and its HTTP status
-- (`http_status_for_error` of src/http_utils.rs).
use launch_code.Prelude.{ℕ, ◌≡◌, refl, Bool, true, ◌||◌, ◌==◌, if◌then◌else◌}
use launch_code.Text.{Text, codes}
use launch_code.Error.{
  AppError, ProcessError, io, json, runtime, debug, config, state, process, session_not_found,
  session_id_ambiguous, session_missing_pid, session_missing_debug_meta, session_missing_log_path,
  session_state_changed, profile_not_found, profile_bundle_version_unsupported,
  profile_validation_failed, invalid_env_pair, invalid_env_file_line, invalid_log_regex,
  invalid_log_time_window, python_debugpy_unavailable, go_dlv_unavailable,
  unsupported_debug_runtime, unsupported_dap_runtime, http, dap, link_not_found, invalid_link_path,
  invalid_start_options, invalid_build_options, unsupported_build_runtime, build_failed,
  runtime_readiness_failed, confirmation_required, stop_timeout,
}

process_code : ProcessError → Text
process_code (stop_timeout pid ms) = codes "stop_timeout"
process_code _ = codes "process_error"

unfoldable pub code : AppError → Text
unfolding process_code
code (io e) = codes "io_error"
code (json e) = codes "json_error"
code (runtime e) = codes "runtime_error"
code (debug e) = codes "debug_error"
code (config e) = codes "config_error"
code (state e) = codes "state_error"
code (process e) = process_code e
code (session_not_found t) = codes "session_not_found"
code (session_id_ambiguous t) = codes "session_id_ambiguous"
code (session_missing_pid t) = codes "session_missing_pid"
code (session_missing_debug_meta t) = codes "session_missing_debug_meta"
code (session_missing_log_path t) = codes "session_missing_log_path"
code (session_state_changed t) = codes "session_state_changed"
code (profile_not_found t) = codes "profile_not_found"
code (profile_bundle_version_unsupported n) = codes "profile_bundle_version_unsupported"
code (profile_validation_failed t) = codes "profile_validation_failed"
code (invalid_env_pair t) = codes "invalid_env_pair"
code (invalid_env_file_line t) = codes "invalid_env_file_line"
code (invalid_log_regex t) = codes "invalid_log_regex"
code (invalid_log_time_window t) = codes "invalid_log_time_window"
code python_debugpy_unavailable = codes "python_debugpy_unavailable"
code go_dlv_unavailable = codes "go_dlv_unavailable"
code (unsupported_debug_runtime t) = codes "unsupported_debug_runtime"
code (unsupported_dap_runtime t) = codes "unsupported_dap_runtime"
code (http t) = codes "http_error"
code (dap t) = codes "dap_error"
code (link_not_found t) = codes "link_not_found"
code (invalid_link_path t) = codes "invalid_link_path"
code (invalid_start_options t) = codes "invalid_start_options"
code (invalid_build_options t) = codes "invalid_build_options"
code (unsupported_build_runtime t) = codes "unsupported_build_runtime"
code (build_failed t) = codes "build_failed"
code (runtime_readiness_failed t) = codes "runtime_readiness_failed"
code (confirmation_required t) = codes "confirmation_required"

unfoldable pub exit_code : AppError → ℕ
exit_code (invalid_env_pair t) = 2
exit_code (invalid_env_file_line t) = 2
exit_code (invalid_log_regex t) = 2
exit_code (invalid_log_time_window t) = 2
exit_code (profile_bundle_version_unsupported n) = 2
exit_code (profile_validation_failed t) = 2
exit_code (unsupported_debug_runtime t) = 2
exit_code (unsupported_dap_runtime t) = 2
exit_code (invalid_link_path t) = 2
exit_code (invalid_start_options t) = 2
exit_code (invalid_build_options t) = 2
exit_code (unsupported_build_runtime t) = 2
exit_code (runtime_readiness_failed t) = 2
exit_code (confirmation_required t) = 2
exit_code (session_not_found t) = 3
exit_code (session_id_ambiguous t) = 3
exit_code (session_missing_pid t) = 3
exit_code (session_missing_debug_meta t) = 3
exit_code (session_missing_log_path t) = 3
exit_code (session_state_changed t) = 3
exit_code (profile_not_found t) = 3
exit_code (link_not_found t) = 3
exit_code python_debugpy_unavailable = 4
exit_code go_dlv_unavailable = 4
exit_code (build_failed t) = 1
exit_code (dap t) = 5
exit_code (http t) = 6
exit_code _ = 1

process_status : ProcessError → ℕ × Text
process_status (stop_timeout pid ms) = (409, codes "stop_timeout")
process_status _ = (500, codes "internal_error")

unfoldable pub http_status_for_error : AppError → ℕ × Text
unfolding process_status
http_status_for_error (session_not_found t) = (404, codes "not_found")
http_status_for_error (session_missing_pid t) = (409, codes "missing_pid")
http_status_for_error (session_missing_debug_meta t) = (409, codes "missing_debug_meta")
http_status_for_error (session_missing_log_path t) = (409, codes "missing_log_path")
http_status_for_error (session_state_changed t) = (409, codes "session_state_changed")
http_status_for_error (profile_not_found t) = (404, codes "profile_not_found")
http_status_for_error (profile_bundle_version_unsupported n) =
    (422, codes "profile_bundle_version_unsupported")
http_status_for_error (profile_validation_failed t) = (422, codes "profile_validation_failed")
http_status_for_error (invalid_env_pair t) = (400, codes "bad_request")
http_status_for_error (invalid_env_file_line t) = (400, codes "bad_request")
http_status_for_error (invalid_log_regex t) = (400, codes "bad_request")
http_status_for_error (process e) = process_status e
http_status_for_error python_debugpy_unavailable = (412, codes "debugpy_unavailable")
http_status_for_error go_dlv_unavailable = (412, codes "dlv_unavailable")
http_status_for_error (unsupported_debug_runtime t) = (422, codes "unsupported_debug_runtime")
http_status_for_error (unsupported_dap_runtime t) = (422, codes "unsupported_dap_runtime")
http_status_for_error (dap t) = (502, codes "dap_error")
http_status_for_error _ = (500, codes "internal_error")

-- Which exit status goes with an HTTP status: usage errors (400 and 422) with 2, missing things (404)
-- with 3, conflicts (409) with 3, or 1 for a process that does not stop, missing tools (412) with 4
-- and a failing debug adapter (502) with 5. There is no other HTTP status but 500.
abbrev pub agrees : ℕ → ℕ → Bool
agrees status exit =
    if status == 400 || status == 422
    then exit == 2
    else if status == 404
    then exit == 3
    else if status == 409
    then exit == 3 || exit == 1
    else if status == 412
    then exit == 4
    else if status == 502
    then exit == 5
    else status == 500

-- The HTTP status of every error and its exit status on the command line agree.
pub http_status-agrees-exit_code :
    (e : AppError) → agrees (http_status_for_error e).0 (exit_code e) ≡ true
unfolding exit_code http_status_for_error
http_status-agrees-exit_code (process (stop_timeout pid ms)) = refl
http_status-agrees-exit_code (process _) = refl
http_status-agrees-exit_code _ = refl
