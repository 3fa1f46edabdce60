-- ===== src/Process/Spawn/Tee.antt =====
-- `pump_tee_stream`: the output of a child is written to its log and shown. The reader is the list
-- of what its reads give up to the end of the stream, where a read gives no bytes.
use launch_code.Prelude.{
  ◌≡◌, Result, ok, err, List, [], ◌∷◌, ◌++◌, append-nil, arith, append_assoc, ◌∙◌, sym,
}
use launch_code.Prelude.Io.{Io, ◌>>◌, fail, after_ok}
use launch_code.Text.{Text}
use launch_code.Error.{IoError}

-- The two writers, with what was written to each.
pub record Sinks : Type 1 where
  pub S : Type 0
  pub write_log : Text → Io S IoError (Unit {0})
  pub write_stream : Text → Io S IoError (Unit {0})
  pub flush_log : Io S IoError (Unit {0})
  pub flush_stream : Io S IoError (Unit {0})

abbrev pub Reads : Type 0
Reads = List (Result IoError Text)

module _ (sinks : Sinks) where
  open sinks use {S, write_log, write_stream, flush_log, flush_stream}

  unfoldable pub finish : Io S IoError (Unit {0})
  finish = do flush_log; flush_stream

  unfoldable pub pump_tee_stream : Reads → Io S IoError (Unit {0})
  pump_tee_stream [] = finish
  pump_tee_stream (err e ∷ reads) = fail e
  pump_tee_stream (ok [] ∷ reads) = finish
  pump_tee_stream (ok (c ∷ chunk) ∷ reads) = do
    write_log (c ∷ chunk)
    write_stream (c ∷ chunk)
    pump_tee_stream reads

-- The bytes before the end of the stream.
unfoldable pub stream_bytes : Reads → Text
stream_bytes [] = []
stream_bytes (err e ∷ reads) = []
stream_bytes (ok [] ∷ reads) = []
stream_bytes (ok (c ∷ chunk) ∷ reads) = (c ∷ chunk) ++ stream_bytes reads

-- Writers that append: `write_all` writes all of its bytes, and the log and the stream are apart.
pub record Appends (sinks : Sinks) : Type 0 where
  pub logged : sinks.S → Text
  pub shown : sinks.S → Text
  pub log_appends :
      (chunk : Text) (s t : sinks.S)
      → sinks.write_log chunk s ≡ (ok tt, t)
      → (logged t ≡ logged s ++ chunk) × (shown t ≡ shown s)
  pub stream_appends :
      (chunk : Text) (s t : sinks.S)
      → sinks.write_stream chunk s ≡ (ok tt, t)
      → (logged t ≡ logged s) × (shown t ≡ shown s ++ chunk)
  pub log_flushes :
      (s t : sinks.S) → sinks.flush_log s ≡ (ok tt, t) → (logged t ≡ logged s) × (shown t ≡ shown s)
  pub stream_flushes :
      (s t : sinks.S)
      → sinks.flush_stream s ≡ (ok tt, t)
      → (logged t ≡ logged s) × (shown t ≡ shown s)

module _ (sinks : Sinks) (appends : Appends sinks) where
  open sinks use {S, write_log, write_stream, flush_log, flush_stream}
  open appends use {logged, shown, log_appends, stream_appends, log_flushes, stream_flushes}

  abbrev Grown : Text → S → S → Type 0
  Grown bytes s t = (logged t ≡ logged s ++ bytes) × (shown t ≡ shown s ++ bytes)

  finish-Grown : (s t : S) → finish sinks s ≡ (ok tt, t) → Grown [] s t
  unfolding finish
  finish-Grown s t h =
      after_ok flush_log (λ _. flush_stream) s h
        λ _ u first second.
          let (a, b) = log_flushes s u first in
          let (c, d) = stream_flushes u t second in
          (c ∙ a ∙ sym (append-nil (logged s)), d ∙ b ∙ sym (append-nil (shown s)))

  -- Both the log and the terminal get every byte of the child's output, in order.
  pub pump_tee_stream-bytes :
      (reads : Reads) (s t : S)
      → pump_tee_stream sinks reads s ≡ (ok tt, t)
      → (logged t ≡ logged s ++ stream_bytes reads) × (shown t ≡ shown s ++ stream_bytes reads)
  unfolding pump_tee_stream stream_bytes
  pump_tee_stream-bytes [] s t h = finish-Grown s t h
  pump_tee_stream-bytes (err e ∷ reads) s t h = cc
  pump_tee_stream-bytes (ok [] ∷ reads) s t h = finish-Grown s t h
  pump_tee_stream-bytes (ok (c ∷ chunk) ∷ reads) s t h =
      after_ok (write_log (c ∷ chunk)) _ s h λ _ u first k.
        after_ok (write_stream (c ∷ chunk)) _ u k λ _ v second rest.
          let (a, b) = log_appends (c ∷ chunk) s u first in
          let (d, e) = stream_appends (c ∷ chunk) u v second in
          let (f, g) = pump_tee_stream-bytes reads v t rest in
          (
            grind (arith, f, d, a, append_assoc (logged s) (c ∷ chunk) (stream_bytes reads)),
            grind (arith, g, e, b, append_assoc (shown s) (c ∷ chunk) (stream_bytes reads)),
          )
