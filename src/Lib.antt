-- ===== src/Lib.antt =====
-- Launch Code: a development of the program under src/ (Rust), which starts, watches, stops and
-- debugs programs and keeps what it knows of them in one state file.
--
-- The program's parts and how they meet. A launch is described by a `LaunchSpec`; a running or past
-- one is a `SessionRecord`; all of them, with the profiles, are the `AppState`. `StateStore` reads and
-- writes it as JSON under a file lock, and is shared by every process of the program: commands, the
-- HTTP server and the debug adapters. Session control changes the state only through its `update`,
-- and acts on processes before, in and after it; since other processes act too, it compares the
-- process that it stopped with the one that it finds, and tries again. A debug adapter talks to a
-- debugger in framed messages, and adopts child processes as sessions.
--
-- Where each part is modelled:
-- - Model: src/model.rs, the records and enums with their fields.
-- - Error, Error/Codes: src/error.rs and the error types that it wraps, exit statuses, and the HTTP
--   statuses of src/http_utils.rs.
-- - EnvFile, EnvFile/Quoting, EnvFile/RoundTrip: src/envfile.rs, the parser of environment files.
-- - State/Migrate, State/Files, State/Store and its children: src/state.rs. A store's files are the
--   state file and the temporary file. Every system call asks a list of faults whether it fails, and
--   the lock is taken after what other processes wrote; both are arbitrary.
-- - Sessions and its children: src/app/session_api.rs, with `reconcile_session`, `find_session_mut`
--   and the log helpers of src/app.rs. The record `Machine` holds what is called outside: the clock,
--   processes, log files, the preparation of a launch. `Reconcile` is `api_list_sessions`, `Resolve`
--   is `resolve_session_id`, `Cleanup`, `Retry`, `Stop` and `Restart` are the operations of these
--   names, `Signals` is suspending, resuming and reading one session.
-- - Dap/Codec, Dap/Events, Dap/Subprocess: src/dap/codec.rs, `push_event` of src/dap/shared.rs, and
--   src/dap/subprocess.rs.
-- - Runtime and its children: src/runtime and src/debug_backend.rs.
-- - Links: src/link_registry.rs, the registry and the naming of workspaces.
-- - Http: src/http_utils.rs, reading requests.
-- - DebugEndpoint: src/debug.rs, the choice of a debug port.
-- - Process/Spawn with its children Environment and Tee: src/process.rs, the environment of a
--   process, the copying of its output, and its start. Process/Signal and its children: probing it,
--   stopping it (Waited, Stopping, Exiting). The record `System` holds the system calls and the clock.
-- - Order: stable sorting and cutting off, as `sort_by` and `truncate` do them.
-- - Batch: src/cli/lifecycle_args.rs and src/app/session_cli/batch.rs; Batch/Selection the choice of
--   sessions, Batch/Engine src/app/session_cli/batch/engine.rs, Batch/Local, Batch/Targets,
--   Batch/Commands and Batch/Global the commands. Session control reaches a batch through the
--   interface `SessionApi`, which Batch/Local fills with the operations of Sessions.
-- - Listing: src/app/session_cli.rs (rows and filters), view.rs beside it; Listing/Index is
--   global_scan_index.rs, Listing/Cache is list_cache.rs.
-- - LaunchConfig and its children: src/config.rs. The record `Outside` holds paths, files, the
--   environment and the JSON reader.
-- - Profiles: src/app/spec_ops.rs and src/app/config_ops.rs with the options of src/cli.rs and
--   src/cli/config_args.rs; Profiles/Validate what is checked of a profile (`Probes` are the file
--   system and the commands that it runs), Profiles/Commands the commands over the store.
-- - Logs: src/app/log_ops.rs, reading the end of a log (Tail, which opens and reads in one step), the
--   filters of its lines (Filter) and their time window (Window).
-- - Text, Map, Prelude: what the code uses of the standard library. A text is a list of code points,
--   a `BTreeMap` a list of entries sorted by key, `?` the bind of a do block. `Io` is a function from
--   a world to a result and a world, so that what was done before an error stays done.
-- - Tests: the theorems at concrete inputs.
--
-- What is outside is a parameter: `serde_json` is `Serde` for the state (with `SerdeLaws`: what is
-- written is read back, and is not blank), `Format` for messages (with `FormatLaws`: ASCII is its own
-- text), `ValueOps` for the fields of an event, `Network` for listening, `System` and `Clock` for processes, `CacheFiles`
-- for the files of a list, `BundleFiles` for those of exported profiles, `RegexOps` for the crate
-- regex; `to_lowercase`, the text of an error, the file name of a path and the canonical path are
-- arguments. Which worker of a batch acts when is an
-- argument too: any merge of the workers' jobs. Turning bytes into text with replacement characters
-- is a function with the law that it commutes with cutting at a newline (`DecodeLaws`).
--
-- Numbers are natural numbers. A `u32` count that the code adds to wraps or saturates as the code
-- says; a sum that is checked against a limit saturates at the maximum of 64 bits.
--
-- Loops on fuel, and why it is enough: the digits of `n` take at most `n` rounds; the header lines of
-- a message take a byte each, and there is one round more than bytes; a search for a free name has
-- one round more than the map has entries for its numbered names, and so many names cannot all be
-- keys (Map/Free); the queue of events loses one in each round; three attempts are the code's own
-- bound; dashes collapse in at most as many rounds as there are characters. Waiting for a
-- process takes 50 ms a round: with a clock that advances so far in a sleep, `timeout / 50 + 2`
-- rounds are enough. Reading a log backwards takes at least a byte a round.
--
-- Not modelled: command line and output, the HTTP routes, the threads and sockets of the debug
-- adapters, the start of a process from its specification, the session index and the file of the link
-- registry, following a log, a batch over all workspaces by several workers, interactive lists,
-- diagnosis, projects and builds: they are left for later, or are input and output only.
mod Prelude
pub mod Order
pub mod Text
pub mod Map
pub mod Error
pub mod Model
pub mod EnvFile
pub mod LaunchConfig
pub mod State
pub mod Sessions
pub mod Batch
pub mod Listing
pub mod Dap
pub mod Runtime
pub mod Links
pub mod Logs
pub mod Http
pub mod DebugEndpoint
mod Tests
pub mod Process
pub mod Profiles
