-- ===== src/Http.antt =====
-- Reading requests: src/http_utils.rs. Bytes are numbers; `tiny_http` and `serde_json` are left to
-- the callers: what they hand over is the argument here.
pub mod Compare
pub mod Body
pub mod Segments
use Prim.Native.Nat.{bit_xor, bit_or}
use launch_code.Prelude.{
  ℕ, ◌+◌, ◌≡◌, Bool, true, false, Option, none, some, List, [], ◌∷◌, ◌++◌, Result, ok, err, length,
  is_empty, keep, not, min, max, ltb, ◌==◌, if◌then◌else◌,
}
use launch_code.Text
use launch_code.Text.{Text, codes, trim, split_once}
use launch_code.Text.Decimal.{parse_uint, u64_max, to_string}

-- `split` at a character; there is always one part.
unfoldable pub split : ℕ → Text → List Text
split d [] = [] ∷ []
split d (c ∷ s) =
    let rest = split d s in
    if c == d then [] ∷ rest else elim rest [ [] ↦ (c ∷ []) ∷ [] | p ∷ ps ↦ (c ∷ p) ∷ ps ]

unfoldable pub http_split_url : Text → Text × Option Text
http_split_url url = elim (split_once b'?' url) [
  | some (path, query) ↦ (path, some query)
  | none ↦ (url, none)
]

unfoldable pub http_path_segments : Text → List Text
unfolding split
http_path_segments path = keep (λ item. not (is_empty item)) (split b'/' path)

-- The first pair of the key decides; pairs without `=` are skipped.
unfoldable pub query_value : Text → List Text → Option Text
query_value key [] = none
query_value key (pair ∷ pairs) =
    let rest = query_value key pairs in
    elim (split_once b'=' pair) [
      | none ↦ rest
      | some (k, v) ↦ if Text.eq k key then some v else rest
    ]

unfoldable pub query_number : Text → Text → Result Text (Option ℕ)
unfolding query_value split
query_number query key = elim (query_value key (split b'&' query)) [
  | none ↦ ok none
  | some v ↦ elim (parse_uint u64_max v) [
    | some parsed ↦ ok (some parsed)
    | none ↦
        err (codes "invalid query parameter: " ++ key ++ codes " should be an unsigned integer")
  ]
]

-- A `usize` has 64 bits, so that `http_query_usize` is the same function.
unfoldable pub http_query_u64 : Option Text → Text → Result Text (Option ℕ)
unfolding query_number
http_query_u64 none key = ok none
http_query_u64 (some query) key = if is_empty (trim query) then ok none else query_number query key

-- Milliseconds. The value is what the payload has at the key, and what `as_u64` makes of it.
unfoldable pub http_optional_timeout_ms : Option (Option ℕ) → Text → ℕ → Result Text ℕ
http_optional_timeout_ms none key default_ms = ok (min default_ms 60000)
http_optional_timeout_ms (some (some ms)) key default_ms = ok (min ms 60000)
http_optional_timeout_ms (some none) key default_ms =
    err (key ++ codes " must be a non-negative integer")

-- The loop over the longer length; a missing byte counts as zero.
unfoldable pub collect_diff : ℕ → List ℕ → List ℕ → ℕ
collect_diff diff [] [] = diff
collect_diff diff (l ∷ left) [] = collect_diff (bit_or diff (bit_xor l 0)) left []
collect_diff diff [] (r ∷ right) = collect_diff (bit_or diff (bit_xor 0 r)) [] right
collect_diff diff (l ∷ left) (r ∷ right) = collect_diff (bit_or diff (bit_xor l r)) left right

unfoldable pub constant_time_eq : List ℕ → List ℕ → Bool
unfolding collect_diff
constant_time_eq left right = collect_diff (bit_xor (length left) (length right)) left right == 0

-- The value of the header `Authorization`, if the request has one; `as_bytes` is that of `str`.
unfoldable pub http_is_authorized : (Text → List ℕ) → Option Text → Text → Bool
http_is_authorized as_bytes none token = false
http_is_authorized as_bytes (some value) token =
    constant_time_eq (as_bytes (trim value)) (as_bytes (codes "Bearer " ++ token))

pub data HttpReadJsonError : Type 0 where
  too_large : ℕ → HttpReadJsonError
  invalid : Text → HttpReadJsonError

-- The loop over what the reader hands out; an empty chunk is the end.
unfoldable pub read_chunks :
    ℕ → ℕ → List ℕ → List (Result Text (List ℕ)) → Result HttpReadJsonError (List ℕ)
read_chunks limit total body [] = ok body
read_chunks limit total body (err e ∷ chunks) = err (invalid e)
read_chunks limit total body (ok chunk ∷ chunks) =
    let read = min u64_max (total + length chunk) in
    let rest = read_chunks limit read (body ++ chunk) chunks in
    if is_empty chunk then ok body else if ltb limit read then err (too_large limit) else rest
