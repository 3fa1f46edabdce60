-- ===== src/DebugEndpoint.antt =====
-- The debug endpoint of a launch: `resolve_debug_config` of src/debug.rs. The network is the record
-- `Network`; a listener is closed where the code drops it.
pub mod Resolved
use launch_code.Prelude.{ℕ, Bool, true, false, Result, ok, err, if◌then◌else◌}
use launch_code.Prelude.Io.{Io}
use launch_code.Text.{Text}
use launch_code.Error.{
  IoError, ErrorKind, invalid_input, DebugError, invalid_endpoint, fallback_bind_failed,
}
use launch_code.Model.{DebugConfig}

-- `bind` is `TcpListener::bind`, `local_port` the port of `local_addr`, `close` the end of a listener.
pub record Network : Type 1 where
  pub Os : Type 0
  pub Listener : Type 0
  pub bind : Text → ℕ → Io Os IoError Listener
  pub local_port : Listener → Io Os IoError ℕ
  pub close : Listener → Os → Os

pub record ResolvedDebugConfig : Type 0 where
  pub config : DebugConfig
  pub requested_port : ℕ
  pub fallback_applied : Bool

abbrev is_invalid_input : ErrorKind → Bool
is_invalid_input invalid_input = true
is_invalid_input _ = false

-- The error of the fallback; an endpoint that is malformed is reported as such.
unfoldable pub fallback_error : DebugConfig → IoError → IoError → DebugError
fallback_error input bind_error source =
    if is_invalid_input bind_error.kind
    then invalid_endpoint input.host input.port bind_error
    else fallback_bind_failed input.host source

unfoldable pub with_fallback : DebugConfig → ℕ → ResolvedDebugConfig
with_fallback input port = record {
  config = record input { port = port };
  requested_port = input.port;
  fallback_applied = true;
}

unfoldable pub as_requested : DebugConfig → ResolvedDebugConfig
as_requested input = record {
  config = input;
  requested_port = input.port;
  fallback_applied = false;
}

module _ (network : Network) (input : DebugConfig) where
  open network use {Os, Listener, bind, local_port, close}

  unfoldable pub take_port :
      Listener → Result IoError ℕ × Os → Result DebugError ResolvedDebugConfig × Os
  take_port listener (ok port, os) = (ok (with_fallback input port), close listener os)
  take_port listener (err source, os) =
      (err (fallback_bind_failed input.host source), close listener os)

  unfoldable pub after_fallback :
      IoError → Result IoError Listener × Os → Result DebugError ResolvedDebugConfig × Os
  after_fallback bind_error (ok fallback, os) = take_port fallback (local_port fallback os)
  after_fallback bind_error (err source, os) = (err (fallback_error input bind_error source), os)

  unfoldable pub after_bind :
      Result IoError Listener × Os → Result DebugError ResolvedDebugConfig × Os
  after_bind (ok listener, os) = (ok (as_requested input), close listener os)
  after_bind (err bind_error, os) = after_fallback bind_error (bind input.host 0 os)

  unfoldable pub resolve_debug_config : Io Os DebugError ResolvedDebugConfig
  resolve_debug_config os = after_bind (bind input.host input.port os)
