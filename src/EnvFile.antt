-- ===== src/EnvFile.antt =====
-- src/envfile.rs: the `.env` parser. Reading the file is the caller's: `read` is what
-- `fs::read_to_string` gave.
mod Quoting
pub mod RoundTrip
use launch_code.Prelude.{
  ℕ, zero, suc, ◌≡◌, refl, Bool, true, false, not, ◌&&◌, ◌||◌, Option, none, some, List, [], ◌∷◌,
  ◌++◌, Result, ok, err, ◌>>=◌, ok_or, is_empty, ◌==◌, if◌then◌else◌,
}
use launch_code.Text.{Text, codes, trim, trim_start, strip_prefix, split_once, is_whitespace}
use launch_code.Text.Lines.{lines}
use launch_code.Error.{EnvFileError, IoError, invalid_line, io}
use launch_code.Map
use launch_code.Map.{Map}

-- `raw.len()` shrinks exactly if the trimmed text is another one; what is left starts with a space.
abbrev starts_with_space : Text → Bool
starts_with_space [] = false
starts_with_space (c ∷ s) = is_whitespace c

unfoldable pub strip_export_prefix : Text → Text
strip_export_prefix raw = elim (strip_prefix (codes "export") raw) [
  | some rest ↦ if starts_with_space rest then trim_start rest else raw
  | none ↦ raw
]

-- What stands for `\c` between double quotes.
unfoldable pub unescape : ℕ → ℕ
unescape c =
    if c == b'n' then b'\n' else if c == b'r' then b'\r' else if c == b't' then b'\t' else c

-- The loop of `parse_double_quoted_value`, behind the opening quote: the flag `escaped`, the value so
-- far and, where the closing quote was met, the text behind it.
unfoldable pub scan_quoted : Bool → Text → Text → Bool × Text × Option Text
unfolding unescape
scan_quoted escaped value [] = (escaped, value, none)
scan_quoted true value (c ∷ s) = scan_quoted false (value ++ unescape c ∷ []) s
scan_quoted false value (c ∷ s) =
    let after_backslash = scan_quoted true value s in
    let plain = scan_quoted false (value ++ c ∷ []) s in
    if c == b'\\' then after_backslash else if c == b'"' then (false, value, some s) else plain

abbrev starts_with_char : ℕ → Text → Bool
starts_with_char d [] = false
starts_with_char d (c ∷ s) = c == d

-- Behind a closing quote only blanks and a comment may follow.
unfoldable pub check_remainder : Text → Text → Text → Result EnvFileError Text
check_remainder original_line value after =
    let remainder = trim after in
    if not (is_empty remainder) && not (starts_with_char b'#' remainder)
    then err (invalid_line original_line)
    else ok value

unfoldable pub parse_double_quoted_value : Text → Text → Result EnvFileError Text
parse_double_quoted_value [] original_line = err (invalid_line original_line)
parse_double_quoted_value (quote ∷ s) original_line =
    let (escaped, scanned, closing) = scan_quoted false [] s in
    let value = if escaped then scanned ++ b'\\' ∷ [] else scanned in
    do after ← ok_or closing (invalid_line original_line); check_remainder original_line value after

unfoldable pub parse_single_quoted_value : Text → Text → Result EnvFileError Text
parse_single_quoted_value [] original_line = err (invalid_line original_line)
parse_single_quoted_value (quote ∷ s) original_line = elim (split_once b'\'' s) [
  | none ↦ err (invalid_line original_line)
  | some (value, after) ↦ check_remainder original_line value after
]

-- The loop of `parse_unquoted_value`: it stops at a `#` behind a space.
unfoldable pub scan_unquoted : Bool → Text → Text → Text
scan_unquoted prev_is_whitespace value [] = value
scan_unquoted prev_is_whitespace value (c ∷ s) =
    let rest = scan_unquoted (is_whitespace c) (value ++ c ∷ []) s in
    if c == b'#' && prev_is_whitespace then value else rest

unfoldable pub parse_unquoted_value : Text → Text
parse_unquoted_value raw = trim (scan_unquoted false [] raw)

unfoldable pub parse_env_value : Text → Text → Result EnvFileError Text
parse_env_value untrimmed original_line =
    let raw = trim untrimmed in
    if is_empty raw
    then ok []
    else if starts_with_char b'"' raw
    then parse_double_quoted_value raw original_line
    else if starts_with_char b'\'' raw
    then parse_single_quoted_value raw original_line
    else ok (parse_unquoted_value raw)

-- The part of the loop's body behind the split at `=`.
unfoldable pub assign : Text → Text × Text → Map Text → Result EnvFileError (Map Text)
assign trimmed (raw_key, raw_value) env_map =
    let key = trim raw_key in
    if is_empty key
    then ok env_map
    else do value ← parse_env_value raw_value trimmed; ok (Map.insert key value env_map)

-- One round of the loop of `parse_env_file_map`.
unfoldable pub parse_line : Text → Map Text → Result EnvFileError (Map Text)
parse_line line env_map =
    let trimmed = trim line in
    if is_empty trimmed || starts_with_char b'#' trimmed
    then ok env_map
    else (let stripped = strip_export_prefix trimmed in
        do
          pair ← ok_or (split_once b'=' stripped) (invalid_line stripped)
          assign stripped pair env_map)

unfoldable pub parse_lines : List Text → Map Text → Result EnvFileError (Map Text)
parse_lines [] env_map = ok env_map
parse_lines (line ∷ rest) env_map = do next ← parse_line line env_map; parse_lines rest next

unfoldable pub parse_env_payload : Text → Result EnvFileError (Map Text)
parse_env_payload payload = parse_lines (lines payload) []

unfoldable pub parse_env_file_map : Result IoError Text → Result EnvFileError (Map Text)
parse_env_file_map (err e) = err (io e)
parse_env_file_map (ok payload) = parse_env_payload payload
