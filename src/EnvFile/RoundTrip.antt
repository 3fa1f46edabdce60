-- ===== src/EnvFile/RoundTrip.antt =====
-- Environment files whose values are written between quotes, and what the parser reads of them.
use launch_code.Prelude.{
  ℕ, ◌≡◌, ◌≤◌, ◌≢◌, refl, Bool, true, false, some, List, [], ◌∷◌, ◌++◌, arith, ◌==◌, ◌||◌, within,
  append_assoc, ◌∙◌, sym, All, All-append, ok, Option-cases, inl, inr,
}
use launch_code.Text.{Text, codes, trim, strip_prefix, split_once, is_whitespace}
use launch_code.Text.Lines.{lines, NoNewline, lines-cons}
use launch_code.Text.Trim.{trim_ends, NoSpace, trim-NoSpace}
use launch_code.EnvFile.{
  strip_export_prefix, starts_with_space, parse_double_quoted_value, check_remainder,
  parse_env_value, assign, parse_line, parse_lines, parse_env_payload,
}
use launch_code.EnvFile.Quoting.{escape, scan-escape, escape-NoNewline}
use launch_code.Map
use launch_code.Map.{Map}

unfoldable pub is_name_char : ℕ → Bool
is_name_char c = within b'a' b'z' c || within b'A' b'Z' c || within b'0' b'9' c || c == b'_'

-- Names of variables: letters, digits and `_`, at least one.
abbrev pub IsName : Text → Type 0
IsName k = (k ≢ []) × All (λ c. is_name_char c ≡ true) k

abbrev pub quote : Text → Text
quote v = b'"' ∷ (escape v ++ b'"' ∷ [])

-- `NAME="escaped value"`
abbrev pub entry_line : Text × Text → Text
entry_line (k, v) = k ++ b'=' ∷ quote v

unfoldable pub render : Map Text → Text
render [] = []
render ((k, v) ∷ es) = entry_line (k, v) ++ b'\n' ∷ render es

name_bounds : (c : ℕ) → is_name_char c ≡ true → (48 ≤ c) × (c ≤ 122) × ((c == b'=') ≡ false)
unfolding is_name_char
name_bounds c h = ground arith

printable-not-space : (c : ℕ) → 48 ≤ c → c ≤ 122 → is_whitespace c ≡ false
unfolding is_whitespace
printable-not-space c lo hi = ground arith

name_facts :
    (c : ℕ)
    → is_name_char c ≡ true
    → (is_whitespace c ≡ false)
      × ((c == b'=') ≡ false)
      × ((c == b'\n') ≡ false)
      × ((c == b'#') ≡ false)
name_facts c h =
    let (lo, hi, eq) = name_bounds c h in
    (printable-not-space c lo hi, eq, ground arith, ground arith)

name-NoSpace : (k : Text) → All (λ c. is_name_char c ≡ true) k → NoSpace k
name-NoSpace [] h = tt
name-NoSpace (c ∷ k) h = ((name_facts c h.0).0, name-NoSpace k h.1)

name-NoNewline : (k : Text) → All (λ c. is_name_char c ≡ true) k → NoNewline k
name-NoNewline [] h = tt
name-NoNewline (c ∷ k) h = ((name_facts c h.0).2, name-NoNewline k h.1)

-- Behind a prefix of a name there is no space.
strip_prefix-name :
    (p k t rest : Text)
    → All (λ c. (c == b'=') ≡ false) p
    → All (λ c. is_name_char c ≡ true) k
    → strip_prefix p (k ++ b'=' ∷ t) ≡ some rest
    → starts_with_space rest ≡ false
unfolding strip_prefix is_whitespace
strip_prefix-name [] [] t rest q h e = ground arith
strip_prefix-name [] (c ∷ k) t rest q h e = ground (arith, name_facts c h.0)
strip_prefix-name (d ∷ p) [] t rest q h e = ground arith
strip_prefix-name (d ∷ p) (c ∷ k) t rest q h e =
    ground (arith, strip_prefix-name p k t rest q.1 h.1)

split_once-name :
    (k t : Text)
    → All (λ c. is_name_char c ≡ true) k
    → split_once b'=' (k ++ b'=' ∷ t) ≡ some (k, t)
unfolding split_once
split_once-name [] t h = refl
split_once-name (c ∷ k) t h = rw ((name_facts c h.0).1, split_once-name k t h.1)

strip_export-name :
    (k t : Text)
    → All (λ c. is_name_char c ≡ true) k
    → strip_export_prefix (k ++ b'=' ∷ t) ≡ k ++ b'=' ∷ t
unfolding strip_export_prefix
strip_export-name k t h = elim (Option-cases (strip_prefix (codes "export") (k ++ b'=' ∷ t))) [
  | inl e ↦ rw (e, strip_export_prefix)
  | inr (rest, e) ↦ rw (e, strip_export_prefix) (rw (no_space rest e))
]
  where
    no_space :
        (rest : Text)
        → strip_prefix (codes "export") (k ++ b'=' ∷ t) ≡ some rest
        → starts_with_space rest ≡ false
    no_space rest e =
        strip_prefix-name (codes "export") k t rest
          (refl, (refl, (refl, (refl, (refl, (refl, tt)))))) h e

trim-quote : (v : Text) → trim (quote v) ≡ quote v
trim-quote v = trim_ends b'"' (escape v) b'"' quote_not_space quote_not_space
  where
    quote_not_space : is_whitespace b'"' ≡ false
    quote_not_space = unfold is_whitespace in refl

-- The value of a quoted text is what was quoted.
parse_env_value-quote : (v line : Text) → parse_env_value (quote v) line ≡ ok v
unfolding parse_env_value parse_double_quoted_value check_remainder
parse_env_value-quote v line = rw (trim-quote v) (rw (scan-escape v [] []) (rw trim_nil))
  where
    trim_nil : trim [] ≡ []
    trim_nil = unfold trim in refl

trim-entry_line : (k v : Text) → IsName k → trim (entry_line (k, v)) ≡ entry_line (k, v)
trim-entry_line [] v h = absurd (h.0 refl)
trim-entry_line (c ∷ k) v h =
    rw regroup (trim_ends c (k ++ b'=' ∷ b'"' ∷ escape v) b'"' (name_facts c h.1.0).0 not_space)
  where
    regroup :
        k ++ b'=' ∷ b'"' ∷ (escape v ++ b'"' ∷ []) ≡ (k ++ b'=' ∷ b'"' ∷ escape v) ++ b'"' ∷ []
    regroup = sym (append_assoc k (b'=' ∷ b'"' ∷ escape v) (b'"' ∷ []))

    not_space : is_whitespace b'"' ≡ false
    not_space = unfold is_whitespace in refl

-- One written entry is one insertion.
parse_line-entry :
    (k v : Text) (env_map : Map Text)
    → IsName k
    → parse_line (entry_line (k, v)) env_map ≡ ok (Map.insert k v env_map)
unfolding parse_line assign
parse_line-entry [] v env_map h = absurd (h.0 refl)
parse_line-entry (c ∷ k) v env_map h = ground (
  arith,
  trim-entry_line (c ∷ k) v h,
  name_facts c h.1.0,
  strip_export-name (c ∷ k) (quote v) h.1,
  split_once-name (c ∷ k) (quote v) h.1,
  trim-NoSpace (c ∷ k) (name-NoSpace (c ∷ k) h.1),
  parse_env_value-quote v (entry_line (c ∷ k, v)),
)

entry_line-NoNewline : (k v : Text) → IsName k → NoNewline (k ++ b'=' ∷ b'"' ∷ escape v)
entry_line-NoNewline k v h =
    All-append (λ c. (c == b'\n') ≡ false) k (b'=' ∷ b'"' ∷ escape v) (name-NoNewline k h.1)
      (refl, (refl, escape-NoNewline v))

-- Each entry is a line of its own.
lines-render :
    (k v : Text) (es : Map Text)
    → IsName k
    → lines (render ((k, v) ∷ es)) ≡ entry_line (k, v) ∷ lines (render es)
unfolding render
lines-render k v es h =
    rw joined
      (lines-cons opened b'"' (render es) (entry_line-NoNewline k v h) refl refl ∙ rw regroup)
  where
    opened : Text
    opened = k ++ b'=' ∷ b'"' ∷ escape v

    regroup : opened ++ b'"' ∷ [] ≡ entry_line (k, v)
    regroup = append_assoc k (b'=' ∷ b'"' ∷ escape v) (b'"' ∷ [])

    joined : entry_line (k, v) ++ b'\n' ∷ render es ≡ opened ++ b'"' ∷ b'\n' ∷ render es
    joined = rw (← regroup) (append_assoc opened (b'"' ∷ []) (b'\n' ∷ render es))

parse_lines-entry :
    (k v : Text) (rest : List Text) (env_map : Map Text)
    → IsName k
    → parse_lines (entry_line (k, v) ∷ rest) env_map ≡ parse_lines rest (Map.insert k v env_map)
unfolding parse_lines
parse_lines-entry k v rest env_map h = rw (parse_line-entry k v env_map h)

parse_lines-render :
    (es env_map : Map Text)
    → All (λ e. IsName e.0) es
    → parse_lines (lines (render es)) env_map ≡ ok (Map.extend env_map es)
unfolding Map.extend
parse_lines-render [] env_map h = unfold render parse_lines lines in refl
parse_lines-render ((k, v) ∷ es) env_map h =
    rw (lines-render k v es h.0) (parse_lines-entry k v (lines (render es)) env_map h.0)
    ∙ parse_lines-render es (Map.insert k v env_map) h.1

-- A file of lines `NAME="value"`, each value any text with `\n`, `\r`, tab, `\` and `"` written by
-- an escape, is read as the assignments in their order, so the last one of a name counts.
pub parse_env_payload-render :
    (es : Map Text)
    → All (λ e. IsName e.0) es
    → parse_env_payload (render es) ≡ ok (Map.extend [] es)
unfolding parse_env_payload
parse_env_payload-render es h = parse_lines-render es [] h
