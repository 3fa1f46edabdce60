-- ===== src/LaunchConfig/Template.antt =====
-- `expand_template_string` and `expand_env_tokens` of src/config.rs.
pub mod Tokens
use launch_code.Prelude.{
  ℕ, zero, suc, ◌-◌, Option, none, some, List, [], ◌∷◌, ◌++◌, length, unwrap_or, if◌then◌else◌,
}
use launch_code.Text.{Text, codes, starts_with, strip_prefix, split_once}

-- `str::replace` of a text that is not empty; `skip` characters belong to a match.
unfoldable pub replace_from : Text → Text → ℕ → Text → Text
replace_from pattern value skip [] = []
replace_from pattern value (suc skip) (c ∷ s) = replace_from pattern value skip s
replace_from pattern value zero (c ∷ s) =
    let matched = replace_from pattern value (length pattern - 1) s in
    let rest = replace_from pattern value zero s in
    if starts_with pattern (c ∷ s) then value ++ matched else c ∷ rest

unfoldable pub replace : Text → Text → Text → Text
unfolding replace_from
replace pattern value s = replace_from pattern value zero s

-- A token behind its `$`.
abbrev pub token_tail : Text → Text
token_tail key = codes "{env:" ++ key ++ codes "}"

-- `std::env::var` of the names; the cursor is `skip` characters ahead.
module _ (variable : Text → Option Text) where
  -- What follows the opening of a token is searched for its end.
  unfoldable pub after_token : (Text → Text) → Text → Option (Text × Text) → Text
  after_token next s none = s
  after_token next s (some (key, after)) = unwrap_or (variable key) [] ++ next key

  unfoldable pub expand_from : ℕ → Text → Text
  unfolding after_token
  expand_from skip [] = []
  expand_from (suc skip) (c ∷ s) = expand_from skip s
  expand_from zero (c ∷ s) =
      let rest = expand_from zero s in
      elim (strip_prefix (codes "${env:") (c ∷ s)) [
        | none ↦ c ∷ rest
        | some opened ↦
            after_token (λ key. expand_from (length (token_tail key)) s) (c ∷ s)
              (split_once b'}' opened)
      ]

  unfoldable pub expand_env_tokens : Text → Text
  unfolding expand_from
  expand_env_tokens raw = expand_from zero raw

  unfoldable pub expand_template_string : Text → Text → Text → Text
  unfolding expand_env_tokens replace
  expand_template_string workspace basename raw = expand_env_tokens (
      replace (codes "${workspaceFolderBasename}") basename
        (replace (codes "${workspaceFolder}") workspace raw))
