-- ===== src/Dap/Codec.antt =====
-- Messages on the wire: src/dap/codec.rs. Bytes are numbers; `serde_json` and the decoding of UTF-8
-- are the parameter `format`.
mod Header
pub mod RoundTrip
use launch_code.Prelude.{
  ℕ, zero, suc, ◌+◌, ◌*◌, ◌≡◌, Bool, true, false, ◌||◌, Option, none, some, List, [], ◌∷◌, ◌++◌,
  Result, ok, err, ok_or, map_err, length, take, drop, is_empty, leb, ltb, ◌==◌, map, All, ◌<◌,
  if◌then◌else◌,
}
use launch_code.Prelude.Io.{Io, ◌>>=◌, ◌>>◌, pure, fail, lift}
use launch_code.Text.{Text, codes, trim, trim_end_by, to_ascii_lowercase, strip_prefix}
use launch_code.Text.Decimal.{to_string, parse_uint, u64_max}
use launch_code.Error.{AppError, dap}

abbrev pub max_dap_content_length : ℕ
max_dap_content_length = 16 * 1024 * 1024

abbrev pub Bytes : Type 0
Bytes = List ℕ

-- The errors are the texts that the libraries give; `parse_error` is the one of `parse::<usize>`.
pub record Format : Type 1 where
  pub Value : Type 0
  pub to_vec : Value → Result Text Bytes
  pub from_slice : Bytes → Result Text Value
  pub from_utf8 : Bytes → Result Text Text
  pub parse_error : Text → Text
  pub short_read : Text

-- ASCII is its own text.
pub record FormatLaws (format : Format) : Type 0 where
  pub from_utf8-ascii : (line : Bytes) → All (λ c. c < 128) line → format.from_utf8 line ≡ ok line

-- A byte stream: what is left, and the error that comes behind it, if it is not the end.
pub record Reader : Type 0 where
  pub bytes : Bytes
  pub broken : Option Text

-- A sink is what takes the bytes, and may fail.
pub record Sink : Type 1 where
  pub State : Type 0
  pub write_all : Bytes → Io State Text (Unit {0})
  pub flush : Io State Text (Unit {0})

unfoldable pub header : Bytes → Bytes
header payload = codes "Content-Length: " ++ to_string (length payload) ++ codes "\r\n\r\n"

-- A line with its end, and what comes behind it; without an end, all that is left.
unfoldable pub cut_line : Bytes → Bytes × Option Bytes
cut_line [] = ([], none)
cut_line (c ∷ s) =
    let rest = cut_line s in if c == b'\n' then (c ∷ [], some s) else (c ∷ rest.0, rest.1)

abbrev pub is_line_end : ℕ → Bool
is_line_end c = c == b'\r' || c == b'\n'

module _ (format : Format) where
  open format use {Value, to_vec, from_slice, from_utf8, parse_error, short_read}

  module _ (sink : Sink) where
    open sink use {State, write_all, flush}

    abbrev dap_result : Result Text Unit × State → Result AppError (Unit {0}) × State
    dap_result (r, s) = (map_err dap r, s)

    abbrev as_dap : Io State Text (Unit {0}) → Io State AppError (Unit {0})
    as_dap m s = dap_result (m s)

    unfoldable pub write_message : Value → Io State AppError (Unit {0})
    write_message msg = do
      payload ← lift (map_err dap (to_vec msg))
      as_dap (write_all (header payload))
      as_dap (write_all payload)
      as_dap flush

  -- The end of the stream without a newline: an error that is pending, or the last line.
  unfoldable pub last_line : Option Text → Bytes → Io Reader AppError Bytes
  last_line none line reader = (ok line, record reader { bytes = [] })
  last_line (some e) line reader = (err (dap e), record reader { bytes = [] })

  unfoldable pub read_raw_line : Io Reader AppError Bytes
  unfolding cut_line last_line
  read_raw_line reader = elim (cut_line reader.bytes).1 [
    | some rest ↦ (ok (cut_line reader.bytes).0, record reader { bytes = rest })
    | none ↦ last_line reader.broken (cut_line reader.bytes).0 reader
  ]

  -- The value of a `Content-Length` header.
  unfoldable pub content_length : Text → Result AppError ℕ
  content_length value = elim (parse_uint u64_max (trim value)) [
    | none ↦ err (dap (parse_error (trim value)))
    | some parsed ↦
        if ltb max_dap_content_length parsed
        then err (
            dap (
              codes "content-length too large: "
              ++ to_string parsed
              ++ codes " > "
              ++ to_string max_dap_content_length))
        else ok parsed
  ]

  -- One header line; any other header is skipped.
  unfoldable pub header_line : Option ℕ → Text → Result AppError (Option ℕ)
  header_line content_len trimmed =
      elim (strip_prefix (codes "content-length:") (to_ascii_lowercase trimmed)) [
        | none ↦ ok content_len
        | some rest ↦ elim (content_length rest) [ ok n ↦ ok (some n) | err e ↦ err e ]
      ]

  unfoldable pub decode_line : Bytes → Result AppError Text
  decode_line raw = map_err dap (from_utf8 raw)

  -- The loop over the header lines; every line takes at least one byte, so that as many rounds as there
  -- are bytes, and one, are enough.
  unfoldable pub read_headers : ℕ → Option ℕ → Io Reader AppError (Option ℕ)
  read_headers zero content_len = fail (dap (codes "unexpected eof while reading headers"))
  read_headers (suc rounds) content_len = do
    raw ← read_raw_line
    if is_empty raw then fail (dap (codes "unexpected eof while reading headers")) else do
      line ← lift (decode_line raw)
      let trimmed = trim_end_by is_line_end line
      if is_empty trimmed
          then pure content_len
          else do next ← lift (header_line content_len trimmed); read_headers rounds next

  unfoldable pub read_exact : ℕ → Io Reader AppError Bytes
  read_exact n reader =
      if leb n (length reader.bytes)
      then (ok (take n reader.bytes), record reader { bytes = drop n reader.bytes })
      else (
        err (dap (elim reader.broken [ none ↦ short_read | some e ↦ e ])),
        record reader { bytes = [] },
      )

  unfoldable pub read_message : Io Reader AppError Value
  unfolding read_headers
  read_message reader =
      (do
        content_len ← read_headers (suc (length reader.bytes)) none
        len ← lift (ok_or content_len (dap (codes "missing content-length header")))
        buf ← read_exact len
        lift (map_err dap (from_slice buf)))
        reader
