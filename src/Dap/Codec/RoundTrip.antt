-- ===== src/Dap/Codec/RoundTrip.antt =====
-- What `read_message` makes of what `write_message` puts on the wire.
use launch_code.Prelude.{
  ℕ, suc, ◌≤◌, ◌≡◌, Option, some, none, ok, map_err, length, arith, ◌∙◌, [], ◌∷◌, ◌++◌,
  take-length-append, drop-length-append, length-append, append_assoc,
}
use launch_code.Text.{Text, trim_start_by, trim_end_by}
use launch_code.Error.{dap}
use launch_code.Dap.Codec.{
  Bytes, Format, FormatLaws, Reader, Sink, write_message, max_dap_content_length, header,
  read_raw_line, decode_line, read_headers, read_exact, read_message,
}
use launch_code.Dap.Codec.Header.{
  Kept, header_text, cut_line-append, header_line-text, header-lines, trimmed_line, not_blank,
  not_blank_alone, header-ascii, header-Kept,
}

-- A sink that keeps what it is given.
abbrev pub memory : Sink
memory = record {
  State = Bytes;
  write_all = λ bytes written. (ok tt, written ++ bytes);
  flush = λ written. (ok tt, written);
}

module _ (format : Format) (laws : FormatLaws format) (broken : Option Text) where
  abbrev from : Bytes → Reader
  from bytes = record { bytes = bytes; broken = broken }

  raw_line :
      (line rest : Bytes)
      → Kept line
      → read_raw_line format (from (line ++ b'\n' ∷ rest)) ≡ (ok (line ++ b'\n' ∷ []), from rest)
  unfolding read_raw_line
  raw_line line rest h = ground (arith, cut_line-append line rest h)

  headers_end :
      (rounds : ℕ) (content_len : Option ℕ) (rest : Bytes)
      → read_headers format (suc rounds) content_len (from (b'\r' ∷ b'\n' ∷ rest))
        ≡ (ok content_len, from rest)
  unfolding read_headers decode_line trim_end_by trim_start_by
  headers_end rounds content_len rest =
      let r = raw_line (b'\r' ∷ []) rest (ground arith) in
      let u = laws.from_utf8-ascii (b'\r' ∷ b'\n' ∷ []) (ground arith) in ground (arith, r, u)

  headers_step :
      (rounds n : ℕ) (rest : Bytes)
      → n ≤ max_dap_content_length
      → read_headers format (suc rounds) none (from ((header_text n ++ b'\r' ∷ []) ++ b'\n' ∷ rest))
        ≡ read_headers format rounds (some n) (from rest)
  unfolding read_headers decode_line
  headers_step rounds n rest h =
      let r = raw_line (header_text n ++ b'\r' ∷ []) rest (header-Kept n) in
      let u = laws.from_utf8-ascii (header_text n ++ b'\r' ∷ b'\n' ∷ []) (header-ascii n) in
      let e : (header_text n ++ b'\r' ∷ []) ++ b'\n' ∷ [] ≡ header_text n ++ b'\r' ∷ b'\n' ∷ [] =
        append_assoc (header_text n) (b'\r' ∷ []) (b'\n' ∷ []) in
      ground (
        arith,
        r,
        u,
        e,
        not_blank_alone n,
        not_blank n (b'\r' ∷ b'\n' ∷ []),
        trimmed_line n,
        header_line-text format n none h,
      )

  exact :
      (payload rest : Bytes)
      → read_exact format (length payload) (from (payload ++ rest)) ≡ (ok payload, from rest)
  unfolding read_exact
  exact payload rest = ground (
    arith,
    length-append payload rest,
    take-length-append payload rest,
    drop-length-append payload rest,
  )

  both_headers :
      (rounds n : ℕ) (rest : Bytes)
      → n ≤ max_dap_content_length
      → read_headers format
          (suc (suc rounds))
          none
          (from ((header_text n ++ b'\r' ∷ []) ++ b'\n' ∷ b'\r' ∷ b'\n' ∷ rest))
        ≡ (ok (some n), from rest)
  both_headers rounds n rest h =
      headers_step (suc rounds) n (b'\r' ∷ b'\n' ∷ rest) h ∙ headers_end rounds (some n) rest

  -- The rounds that `read_message` starts with are enough for the two lines.
  all_headers :
      (n : ℕ) (rest bytes : Bytes)
      → n ≤ max_dap_content_length
      → bytes ≡ (header_text n ++ b'\r' ∷ []) ++ b'\n' ∷ b'\r' ∷ b'\n' ∷ rest
      → read_headers format (suc (length bytes)) none (from bytes) ≡ (ok (some n), from rest)
  unfolding header_text
  all_headers n rest bytes h e = rw e (both_headers _ n rest h)

  read_framed :
      (payload rest : Bytes)
      → length payload ≤ max_dap_content_length
      → read_message format (from (header payload ++ (payload ++ rest)))
        ≡ (map_err dap (format.from_slice payload), from rest)
  unfolding read_message
  read_framed payload rest le = ground (
    arith,
    all_headers (length payload) (payload ++ rest) (header payload ++ (payload ++ rest)) le
        (header-lines payload (payload ++ rest)),
    exact payload rest,
  )

  written :
      (msg : format.Value) (payload : Bytes)
      → format.to_vec msg ≡ ok payload
      → (write_message format memory msg []).1 ≡ header payload ++ payload
  unfolding write_message
  written msg payload h = ground (arith, h)

  -- Of a message that was written, `read_message` parses exactly the payload that the message was
  -- serialized to, if it is not longer than the reader's limit of sixteen mebibytes, and the reader
  -- stands at what follows the message.
  pub read_message-write_message :
      (msg : format.Value) (payload rest : Bytes)
      → format.to_vec msg ≡ ok payload
      → length payload ≤ max_dap_content_length
      → read_message format (from ((write_message format memory msg []).1 ++ rest))
        ≡ (map_err dap (format.from_slice payload), from rest)
  read_message-write_message msg payload rest h le =
      rw (written msg payload h, append_assoc (header payload) payload rest)
        (read_framed payload rest le)
