-- ===== src/Logs/Filter.antt =====
-- `LogFilter` of src/app/log_ops.rs. Regular expressions are `RegexOps`, of the `regex` crate.
use launch_code.Prelude.{
  Bool, true, false, not, ◌&&◌, ◌||◌, Option, none, some, List, Result, ok, err, ◌>>=◌, map, any,
  is_empty, is_some, if◌then◌else◌,
}
use launch_code.Text.{Text, contains}
use launch_code.Error.{AppError, invalid_log_regex}

-- `build` takes whether case counts, and gives the text of its error.
pub record RegexOps : Type 1 where
  pub Regex : Type 0
  pub build : Bool → Text → Result Text Regex
  pub is_match : Regex → Text → Bool

module _ (ops : RegexOps) (to_lowercase : Text → Text) where
  open ops use {Regex, build, is_match}

  pub record LogFilter : Type 0 where
    pub contains_any : List Text
    pub exclude : List Text
    pub regex : Option Regex
    pub exclude_regex : Option Regex
    pub ignore_case : Bool

  abbrev built : Result Text Regex → Result AppError (Option Regex)
  built (ok regex) = ok (some regex)
  built (err message) = err (invalid_log_regex message)

  unfoldable pub build_regex : Bool → Option Text → Result AppError (Option Regex)
  build_regex ignore_case none = ok none
  build_regex ignore_case (some pattern) = built (build ignore_case pattern)

  abbrev folded : Bool → List Text → List Text
  folded true patterns = map to_lowercase patterns
  folded false patterns = patterns

  -- `LogFilter::new`
  unfoldable pub new_filter :
      List Text → List Text → Option Text → Option Text → Bool → Result AppError LogFilter
  new_filter contains_any exclude regex exclude_regex ignore_case = do
    included ← build_regex ignore_case regex
    excluded ← build_regex ignore_case exclude_regex
    ok (record {
      contains_any = folded ignore_case contains_any;
      exclude = folded ignore_case exclude;
      regex = included;
      exclude_regex = excluded;
      ignore_case = ignore_case;
    })

  unfoldable pub filter_is_enabled : LogFilter → Bool
  filter_is_enabled filter =
      not (is_empty filter.contains_any)
      || not (is_empty filter.exclude)
      || is_some filter.regex
      || is_some filter.exclude_regex

  abbrev matched : Bool → Option Regex → Text → Bool
  matched without none line = without
  matched without (some regex) line = is_match regex line

  unfoldable pub filter_matches_line : LogFilter → Text → Bool
  filter_matches_line filter line =
      let source = if filter.ignore_case then to_lowercase line else line in
      (is_empty filter.contains_any || any (λ pattern. contains pattern source) filter.contains_any)
      && matched true filter.regex line
      && not (any (λ pattern. contains pattern source) filter.exclude)
      && not (matched false filter.exclude_regex line)

  unfoldable pub allows_line : LogFilter → Text → Bool
  allows_line filter line = not (filter_is_enabled filter) || filter_matches_line filter line
