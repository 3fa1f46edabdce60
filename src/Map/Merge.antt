-- ===== src/Map/Merge.antt =====
-- Looking up in a map that was extended, or that keys were removed from.
use launch_code.Prelude.{
  is_some, ◌≡◌, refl, Option, none, some, List, [], ◌∷◌, arith, if◌then◌else◌,
}
use launch_code.Text
use launch_code.Text.{Text, mem}
use launch_code.Map.{Map, get, insert, remove, keys, extend, remove_all, get-insert, get-remove}

-- No key stands twice, as in every `BTreeMap`.
abbrev pub IsDistinct : {V : Type 0} → Map V → Type 0
IsDistinct [] = Unit
IsDistinct ((k, v) ∷ m) = (get k m ≡ none) × IsDistinct m

abbrev pub or_else : {V : Type 0} → Option V → Option V → Option V
or_else (some v) o = some v
or_else none o = o

module _ {V : Type 0} where
  pub get-extend :
      (j : Text) (m n : Map V) → IsDistinct n → get j (extend m n) ≡ or_else (get j n) (get j m)
  unfolding extend get
  get-extend j m [] h = refl
  get-extend j m ((k, v) ∷ n) h =
      ground (arith, get-extend j (insert k v m) n h.1, get-insert k j v m, Text.eq_iff k j, h.0)

  pub get-remove_all :
      (j : Text) (ks : List Text) (m : Map V)
      → get j (remove_all ks m) ≡ (if mem j ks then none else get j m)
  unfolding remove_all mem
  get-remove_all j [] m = refl
  get-remove_all j (k ∷ ks) m =
      ground (
        arith,
        get-remove_all j ks (remove k m),
        get-remove k j m,
        Text.eq_iff k j,
        Text.eq_iff j k,
      )

  pub mem-keys : (j : Text) (m : Map V) → mem j (keys m) ≡ is_some (get j m)
  unfolding mem keys get
  mem-keys j [] = refl
  mem-keys j ((k, v) ∷ m) = ground (arith, mem-keys j m, Text.eq_iff k j, Text.eq_iff j k)
