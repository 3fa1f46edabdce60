-- ===== src/Tests/Wire.antt =====
-- Messages, requests and endpoints at concrete inputs.
use launch_code.Prelude.{
  ◌==◌, true, ◌↔◌, leb, err, if◌then◌else◌, ℕ, ◌+◌, ◌-◌, ◌≤◌, ◌≡◌, refl, List, none, [], ◌∷◌, ◌++◌,
  ok, length, drop, arith,
}
use launch_code.Http.{constant_time_eq, read_chunks, too_large}
use launch_code.Text.{Text, codes}
use launch_code.Http.{http_path_segments}
use launch_code.Http.Segments.{join_path, http_path_segments-join_path}
use launch_code.Http.Compare.{constant_time_eq_iff}
use launch_code.Http.Body.{Chunk, concat, handed_out, read_chunks-limit}
use launch_code.Error.{other_kind}
use launch_code.Model.{debug_config_default}
use launch_code.DebugEndpoint.{
  Network, resolve_debug_config, after_bind, after_fallback, take_port, with_fallback,
}
use launch_code.DebugEndpoint.Resolved.{Bound, resolve_debug_config-Bound}
use launch_code.Dap.Codec.{Bytes, Format, FormatLaws, read_message, write_message}
use launch_code.Dap.Codec.RoundTrip.{memory, read_message-write_message}
use launch_code.Dap.Events.{push_event, max_event_queue_len}
use launch_code.Dap.Events.Newest.{push_event-drop}

-- A format in which every message is its own bytes.
abbrev plain : Format
plain = record {
  Value = Bytes;
  to_vec = λ v. ok v;
  from_slice = λ b. ok b;
  from_utf8 = λ b. ok b;
  parse_error = λ t. t;
  short_read = [];
}

plain-FormatLaws : FormatLaws plain
plain-FormatLaws = record { from_utf8-ascii = λ line h. refl }

read_message-write_message_example :
    read_message plain (record {
      bytes = (write_message plain memory (b'{' ∷ b'}' ∷ []) []).1 ++ (b'x' ∷ []);
      broken = none;
    })
    ≡ (ok (b'{' ∷ b'}' ∷ []), record { bytes = b'x' ∷ []; broken = none })
read_message-write_message_example =
    read_message-write_message plain plain-FormatLaws none (b'{' ∷ b'}' ∷ []) (b'{' ∷ b'}' ∷ [])
      (b'x' ∷ []) refl (omega arith)

abbrev one_two : List ℕ
one_two = 1 ∷ 2 ∷ []

push_event-drop_example :
    (push_event one_two 3 ≡ drop (length one_two + 1 - max_event_queue_len) (one_two ++ 3 ∷ []))
    × (length (push_event one_two 3) ≤ max_event_queue_len)
push_event-drop_example = push_event-drop one_two 3

constant_time_eq_iff_example :
    (constant_time_eq one_two (1 ∷ 3 ∷ []) ≡ true) ↔ (one_two ≡ 1 ∷ 3 ∷ [])
constant_time_eq_iff_example = constant_time_eq_iff one_two (1 ∷ 3 ∷ [])

abbrev two_chunks : List Chunk
two_chunks = (1 ∷ 2 ∷ []) ∷ (3 ∷ []) ∷ []

read_chunks-limit_example :
    read_chunks 2 0 [] (handed_out two_chunks)
    ≡ (if leb (length (concat two_chunks)) 2 then ok (concat two_chunks) else err (too_large 2))
read_chunks-limit_example = read_chunks-limit 2 (omega arith) two_chunks (refl, (refl, tt))

-- Port 5678 is taken; the system gives 40000.
abbrev busy : Network
busy = record {
  Os = ℕ;
  Listener = ℕ;
  bind = λ host port n.
      (if port == 5678 then err (record { kind = other_kind; message = [] }) else ok 40000, n + 1);
  local_port = λ listener n. (ok listener, n);
  close = λ listener n. n + 10;
}

busy_runs :
    resolve_debug_config busy debug_config_default 0
    ≡ (ok (with_fallback debug_config_default 40000), 12)
unfolding resolve_debug_config after_bind after_fallback take_port
busy_runs = refl

resolve_debug_config-Bound_example :
    Bound busy debug_config_default 0 (with_fallback debug_config_default 40000)
resolve_debug_config-Bound_example =
    resolve_debug_config-Bound busy debug_config_default 0 busy_runs

abbrev two_segments : List Text
two_segments = codes "sessions" ∷ codes "s1" ∷ []

http_path_segments-join_path_example : http_path_segments (join_path two_segments) ≡ two_segments
http_path_segments-join_path_example =
    http_path_segments-join_path two_segments (ground arith) (ground arith)
