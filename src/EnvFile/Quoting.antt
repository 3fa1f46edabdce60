-- ===== src/EnvFile/Quoting.antt =====
-- A way to write any value between double quotes, which the parser does not have, and what the
-- parser's loop makes of it.
use launch_code.Prelude.{
  ℕ, ◌≡◌, refl, false, some, [], ◌∷◌, ◌++◌, arith, ◌==◌, if◌then◌else◌, append_assoc, append-nil,
  ◌∙◌, All-append,
}
use launch_code.Text.{Text}
use launch_code.Text.Lines.{NoNewline}
use launch_code.EnvFile.{scan_quoted}

-- How a character is written between double quotes.
unfoldable pub escape_char : ℕ → Text
escape_char c =
    if c == b'\n'
    then b'\\' ∷ b'n' ∷ []
    else if c == b'\r'
    then b'\\' ∷ b'r' ∷ []
    else if c == b'\t'
    then b'\\' ∷ b't' ∷ []
    else if c == b'\\'
    then b'\\' ∷ b'\\' ∷ []
    else if c == b'"'
    then b'\\' ∷ b'"' ∷ []
    else c ∷ []

unfoldable pub escape : Text → Text
escape [] = []
escape (c ∷ s) = escape_char c ++ escape s

scan-escape_char :
    (c : ℕ) (acc rest : Text)
    → scan_quoted false acc (escape_char c ++ rest) ≡ scan_quoted false (acc ++ c ∷ []) rest
unfolding scan_quoted escape_char
scan-escape_char c acc rest = ground arith

-- The loop reads an escaped text back, and stops at the quote behind it.
pub scan-escape :
    (v acc rest : Text)
    → scan_quoted false acc (escape v ++ b'"' ∷ rest) ≡ (false, acc ++ v, some rest)
unfolding escape
scan-escape [] acc rest = rw append-nil (unfold scan_quoted in refl)
scan-escape (c ∷ v) acc rest = rw append_assoc (
    scan-escape_char c acc (escape v ++ b'"' ∷ rest)
    ∙ scan-escape v (acc ++ c ∷ []) rest
    ∙ rw append_assoc)

escape_char-NoNewline : (c : ℕ) → NoNewline (escape_char c)
unfolding escape_char
escape_char-NoNewline c = ground arith

-- An escaped text stands on one line.
pub escape-NoNewline : (v : Text) → NoNewline (escape v)
unfolding escape
escape-NoNewline [] = tt
escape-NoNewline (c ∷ v) =
    All-append (λ d. (d == b'\n') ≡ false) (escape_char c) (escape v) (escape_char-NoNewline c)
      (escape-NoNewline v)
