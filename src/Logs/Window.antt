-- ===== src/Logs/Window.antt =====
-- `LogTimeWindow`, its bounds and the rendering of lines of src/app/log_ops.rs.
use launch_code.Prelude.{
  ℕ, ◌-◌, ◌*◌, ◌/◌, Bool, true, false, not, ◌&&◌, ◌||◌, Option, none, some, List, [], ◌∷◌, ◌++◌,
  Result, ok, err, ◌>>=◌, ok_or, all, length, is_empty, is_some, String, ltb, leb, ◌==◌,
  if◌then◌else◌,
}
use launch_code.Text
use launch_code.Text.{
  Text, codes, trim, trim_start, trim_start_by, trim_end_by, is_digit, is_whitespace,
  to_ascii_lowercase,
}
use launch_code.Text.Decimal.{parse_uint, u64_max, to_string}
use launch_code.Error.{AppError, invalid_log_time_window}
use launch_code.Logs.Filter.{RegexOps, LogFilter, allows_line, filter_is_enabled}

pub record LogTimeWindow : Type 0 where
  pub since : Option ℕ
  pub until : Option ℕ

unfoldable pub span_digits : Text → Text × Text
span_digits [] = ([], [])
span_digits (c ∷ s) =
    let rest = span_digits s in if is_digit c then (c ∷ rest.0, rest.1) else ([], c ∷ s)

unfoldable pub unit_multiplier : Text → Option ℕ
unit_multiplier unit =
    if Text.eq unit (codes "s")
    then some 1
    else if Text.eq unit (codes "m")
    then some 60
    else if Text.eq unit (codes "h")
    then some 3600
    else if Text.eq unit (codes "d")
    then some 86400
    else none

-- `checked_mul` of `u64`
unfoldable pub checked_mul : ℕ → ℕ → Option ℕ
checked_mul a b = if leb (a * b) u64_max then some (a * b) else none

abbrev window_error : String → AppError
window_error message = invalid_log_time_window (codes message)

unfoldable pub parse_lookback_duration_secs : Text → Result AppError ℕ
parse_lookback_duration_secs value =
    let (number, unit) = span_digits (trim value) in
    if is_empty number then err (window_error "duration must start with a positive integer") else do
      amount ←
          ok_or (parse_uint u64_max number)
            (window_error "duration must start with a positive integer")
      if amount == 0 then err (window_error "duration must be greater than 0") else do
        multiplier ←
            ok_or (unit_multiplier (to_ascii_lowercase (trim unit)))
              (window_error "duration unit must be one of: s, m, h, d")
        ok_or (checked_mul amount multiplier) (window_error "duration value is too large")

-- `now` is the time in seconds; a lookback beyond its start is its start.
unfoldable pub parse_time_bound : Text → ℕ → Result AppError ℕ
parse_time_bound value now =
    let raw = trim value in
    if is_empty raw
    then err (window_error "time bound must not be empty")
    else if all is_digit raw
    then ok_or (parse_uint u64_max raw)
        (window_error "time bound must be unix timestamp seconds or lookback duration")
    else do amount ← parse_lookback_duration_secs raw; ok (now - amount)

abbrev parse_bound : Option Text → ℕ → Result AppError (Option ℕ)
parse_bound none now = ok none
parse_bound (some value) now = do bound ← parse_time_bound value now; ok (some bound)

unfoldable pub check_window : Option ℕ → Option ℕ → Result AppError LogTimeWindow
check_window (some since) (some until) =
    if ltb until since
    then err (window_error "--since must be less than or equal to --until")
    else ok (record { since = some since; until = some until })
check_window since until = ok (record { since = since; until = until })

-- `LogTimeWindow::new`
unfoldable pub new_window : Option Text → Option Text → ℕ → Result AppError LogTimeWindow
unfolding check_window
new_window since until now = do
  from ← parse_bound since now
  to ← parse_bound until now
  check_window from to

unfoldable pub window_is_enabled : LogTimeWindow → Bool
window_is_enabled window = is_some window.since || is_some window.until

-- `split_whitespace().next()` of a text that starts with no space
unfoldable pub first_word : Text → Text
first_word [] = []
first_word (c ∷ s) = let rest = first_word s in if is_whitespace c then [] else c ∷ rest

abbrev is_bracket : ℕ → Bool
is_bracket c = c == b'[' || c == b']'

abbrev in_seconds : ℕ → Option ℕ → Option ℕ
in_seconds len none = none
in_seconds len (some timestamp) = some (if len == 13 then timestamp / 1000 else timestamp)

-- `trim_matches` takes brackets from both ends.
unfoldable pub extract_line_timestamp_secs : Text → Option ℕ
extract_line_timestamp_secs line =
    let token = trim_end_by is_bracket (trim_start_by is_bracket (first_word (trim_start line))) in
    if is_empty token || not (all is_digit token)
    then none
    else in_seconds (length token) (parse_uint u64_max token)

abbrev since_allows : Option ℕ → ℕ → Bool
since_allows none timestamp = true
since_allows (some since) timestamp = leb since timestamp

abbrev until_allows : Option ℕ → ℕ → Bool
until_allows none timestamp = true
until_allows (some until) timestamp = leb timestamp until

unfoldable pub window_matches_line : LogTimeWindow → Text → Bool
window_matches_line window line =
    if not (window_is_enabled window) then true else elim (extract_line_timestamp_secs line) [
      | none ↦ true
      | some timestamp ↦ since_allows window.since timestamp && until_allows window.until timestamp
    ]

-- The clock is read for a line that is stamped.
unfoldable pub format_log_line : {W : Type 0} → (W → ℕ × W) → Text → Bool → W → Text × W
format_log_line clock line false w = (line, w)
format_log_line clock line true w =
    let (now, u) = clock w in (b'[' ∷ (to_string now ++ (b']' ∷ b' ' ∷ line)), u)

module _ (ops : RegexOps) (to_lowercase : Text → Text) (filter : LogFilter ops to_lowercase)
    (window : LogTimeWindow) (timestamps : Bool) where
  -- `LogRenderOptions::process_lines`
  unfoldable pub process_lines : Bool
  process_lines =
      filter_is_enabled ops to_lowercase filter || window_is_enabled window || timestamps

  unfoldable pub shows_line : Text → Bool
  shows_line line =
      not (is_empty line)
      && allows_line ops to_lowercase filter line
      && window_matches_line window line

  abbrev line_first : {W : Type 0} → Text × W → (W → List Text × W) → List Text × W
  line_first (line, w) next = let (rest, u) = next w in (line ∷ rest, u)

  unfoldable pub render_log_lines : {W : Type 0} → (W → ℕ × W) → List Text → W → List Text × W
  render_log_lines clock [] w = ([], w)
  render_log_lines clock (line ∷ lines) w =
      let shown =
        line_first (format_log_line clock line timestamps w) (render_log_lines clock lines) in
      let passed = render_log_lines clock lines w in if shows_line line then shown else passed
