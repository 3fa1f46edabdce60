-- ===== src/Links.antt =====
-- The registry of workspaces: src/link_registry.rs. Reading and writing its file, and canonical
-- paths, are the callers'; `update_registry` runs the functions here on the registry that it read.
pub mod Ensure
use launch_code.Prelude.{
  ℕ, zero, suc, ◌+◌, ◌%◌, ◌^◌, ◌≡◌, Bool, true, false, not, ◌||◌, ◌&&◌, Option, none, some, List,
  [], ◌∷◌, ◌++◌, Result, ok, err, ok_or, length, is_empty, reverse, within, ◌==◌, if◌then◌else◌,
}
use launch_code.Text
use launch_code.Text.{
  Text, codes, is_whitespace, is_digit, lower, trim, trim_start_by, trim_end_by, contains,
}
use launch_code.Text.Decimal.{to_string}
use launch_code.Error.{AppError, link_not_found}
use launch_code.Map
use launch_code.Map.{Map}
use launch_code.Map.Free.{suffixed}

abbrev pub link_registry_schema_version : ℕ
link_registry_schema_version = 1

pub record LinkRecord : Type 0 where
  pub name : Text
  pub path : Text

pub record LinkRegistry : Type 0 where
  pub schema_version : ℕ
  pub links : Map LinkRecord

-- `LinkRegistry::default`
abbrev pub link_registry_default : LinkRegistry
link_registry_default = record { schema_version = link_registry_schema_version; links = [] }

unfoldable pub get : LinkRegistry → Text → Option LinkRecord
get registry name = Map.get name registry.links

unfoldable pub first_with_path : Text → List LinkRecord → Option LinkRecord
first_with_path path [] = none
first_with_path path (link ∷ links) =
    let rest = first_with_path path links in if Text.eq link.path path then some link else rest

unfoldable pub find_by_path : LinkRegistry → Text → Option LinkRecord
unfolding first_with_path
find_by_path registry path = first_with_path path (Map.values registry.links)

unfoldable pub upsert : LinkRegistry → Text → Text → LinkRegistry × LinkRecord
upsert registry name path =
    let link : LinkRecord = record { name = name; path = path } in
    (record registry { links = Map.insert name link registry.links }, link)

unfoldable pub remove : LinkRegistry → Text → LinkRegistry × Option LinkRecord
remove registry name =
    (record registry { links = Map.remove name registry.links }, Map.get name registry.links)

unfoldable pub list : LinkRegistry → List LinkRecord
list registry = Map.values registry.links

unfoldable pub resolve_link_path : LinkRegistry → Text → Result AppError Text
unfolding get
resolve_link_path registry name = elim (get registry name) [
  | some link ↦ ok link.path
  | none ↦ err (link_not_found name)
]

unfoldable pub is_ascii_alphanumeric : ℕ → Bool
is_ascii_alphanumeric c = is_digit c || within b'a' b'z' c || within b'A' b'Z' c

-- One character of `sanitize_link_name`: it is kept, is a dash, or goes.
unfoldable pub sanitize_char : ℕ → Text
unfolding is_ascii_alphanumeric
sanitize_char c =
    if is_ascii_alphanumeric c
    then lower c ∷ []
    else if c == b'-' || c == b'_'
    then c ∷ []
    else if is_whitespace c
    then b'-' ∷ []
    else []

unfoldable pub sanitize_chars : Text → Text
unfolding sanitize_char
sanitize_chars [] = []
sanitize_chars (c ∷ s) = sanitize_char c ++ sanitize_chars s

-- `replace("--", "-")`: matches from the left that do not overlap.
unfoldable pub replace_dashes : Text → Text
replace_dashes [] = []
replace_dashes (c ∷ []) = c ∷ []
replace_dashes (c ∷ d ∷ s) =
    let pair = b'-' ∷ replace_dashes s in
    let single = c ∷ replace_dashes (d ∷ s) in if c == b'-' && d == b'-' then pair else single

-- The loop over `replace`; every round makes the text shorter.
unfoldable pub collapse_dashes : ℕ → Text → Text
unfolding replace_dashes
collapse_dashes zero s = s
collapse_dashes (suc rounds) s =
    let rest = collapse_dashes rounds (replace_dashes s) in
    if contains (codes "--") s then rest else s

abbrev is_dash : ℕ → Bool
is_dash c = c == b'-'

unfoldable pub sanitize_link_name : Text → Text
unfolding sanitize_chars collapse_dashes trim_start_by trim_end_by
sanitize_link_name value =
    let output = sanitize_chars value in
    trim_end_by is_dash (trim_start_by is_dash (collapse_dashes (length output) output))

-- The loop over suffixes; two rounds more than there are links are enough, and the `u32` does not reach
-- its maximum.
unfoldable pub search_name : Map LinkRecord → Text → Text → ℕ → ℕ → Option Text
search_name links base_name candidate zero suffix = none
search_name links base_name candidate (suc rounds) suffix =
    let rest = search_name links base_name (suffixed base_name suffix) rounds (suffix + 1) in
    if Map.contains_key candidate links then rest else some candidate

-- `file_name` is the last part of the path where it has one that is UTF-8.
unfoldable pub base_name : Option Text → Text
base_name none = codes "workspace"
base_name (some file_name) =
    let name = sanitize_link_name file_name in if is_empty name then codes "workspace" else name

-- The mutation of `ensure_link_for_workspace`; without a name the loop would not have ended.
unfoldable pub ensure_link : Text → Option Text → LinkRegistry → Option (LinkRegistry × LinkRecord)
unfolding find_by_path base_name search_name upsert
ensure_link path file_name registry = elim (find_by_path registry path) [
  | some existing ↦ some (registry, existing)
  | none ↦
      elim (search_name registry.links (base_name file_name) (base_name file_name)
        (suc (suc (length registry.links))) 2) [
          | none ↦ none
          | some candidate ↦ some (upsert registry candidate path)
        ]
]
