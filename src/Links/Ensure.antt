-- ===== src/Links/Ensure.antt =====
-- What `ensure_link_for_workspace` makes of the registry.
use launch_code.Prelude.{
  ℕ, zero, suc, ◌+◌, ◌≡◌, refl, ◌≢◌, false, Option, some, none, length, arith, List, [], ◌∷◌,
  Option-cases, ◌⊎◌, inl, inr,
}
use launch_code.Text
use launch_code.Text.{Text}
use launch_code.Map
use launch_code.Map.{Map}
use launch_code.Map.Free.{suffixed, AllTaken, AllTaken-bound}
use launch_code.Links.{
  LinkRecord, LinkRegistry, get, first_with_path, find_by_path, upsert, search_name, base_name,
  ensure_link,
}

search_name-none :
    (links : Map LinkRecord) (base candidate : Text) (rounds suffix : ℕ)
    → search_name links base candidate (suc rounds) suffix ≡ none
    → AllTaken base links suffix rounds
unfolding search_name
search_name-none links base candidate zero suffix h = tt
search_name-none links base candidate (suc rounds) suffix h =
    ground (arith, search_name-none links base (suffixed base suffix) rounds (suffix + 1))

search_name-free :
    (links : Map LinkRecord) (base candidate : Text) (rounds suffix : ℕ) {name : Text}
    → search_name links base candidate rounds suffix ≡ some name
    → Map.contains_key name links ≡ false
unfolding search_name
search_name-free links base candidate zero suffix h = ground arith
search_name-free links base candidate (suc rounds) suffix {name = name} h =
    ground
      (arith, search_name-free links base (suffixed base suffix) rounds (suffix + 1) {name = name})

search_name-found :
    (links : Map LinkRecord) (base candidate : Text)
    → search_name links base candidate (suc (suc (length links))) 2 ≢ none
search_name-found links base candidate h =
    let b =
      AllTaken-bound base links 2 (suc (length links))
        (search_name-none links base candidate (suc (length links)) 2 h) in
    omega arith

find_by_path-path :
    (path : Text) (links : List LinkRecord) {link : LinkRecord}
    → first_with_path path links ≡ some link
    → link.path ≡ path
unfolding first_with_path
find_by_path-path path [] h = ground arith
find_by_path-path path (l ∷ links) {link = link} h =
    ground (arith, Text.eq_iff l.path path, find_by_path-path path links {link = link})

-- The registry and the link that a workspace got.
pub record Ensured (path : Text) (registry registry' : LinkRegistry) (link : LinkRecord)
    : Type 0 where
  pub has_path : link.path ≡ path
  pub known_or_new :
      ((find_by_path registry path ≡ some link) × (registry' ≡ registry))
      ⊎ ((get registry link.name ≡ none) × (get registry' link.name ≡ some link))
  pub kept :
      (name : Text) (other : LinkRecord)
      → get registry name ≡ some other
      → get registry' name ≡ some other

existing_link :
    (path : Text) (registry : LinkRegistry) (link : LinkRecord)
    → find_by_path registry path ≡ some link
    → Ensured path registry registry link
unfolding find_by_path
existing_link path registry link h = record {
  has_path = find_by_path-path path (Map.values registry.links) h;
  known_or_new = inl (h, refl);
  kept = λ name other f. f;
}

new_link :
    (path name : Text) (registry : LinkRegistry)
    → Map.contains_key name registry.links ≡ false
    → Ensured path registry (upsert registry name path).0 (upsert registry name path).1
unfolding upsert get
new_link path name registry free =
    let link : LinkRecord = record { name = name; path = path } in
    record {
      has_path = refl;
      known_or_new = inr (
        ground (arith, free),
        ground (arith, Map.get-insert name name link registry.links, Text.eq_refl name),
      );
      kept = λ j other f.
          ground (arith, Map.get-insert name j link registry.links, Text.eq_iff name j);
    }

-- Every workspace gets a link to its path: the one that the registry has, or a new one under a name
-- that was free; every other link stays.
pub ensure_link-Ensured :
    (path : Text) (file_name : Option Text) (registry : LinkRegistry)
    → (registry' : LinkRegistry) × (link : LinkRecord) × (ensure_link path file_name registry
        ≡ some (registry', link))
      × Ensured path registry registry' link
unfolding ensure_link
ensure_link-Ensured path file_name registry = elim (Option-cases (find_by_path registry path)) [
  | inr (link, e) ↦ (registry, link, rw (ensure_link, e), existing_link path registry link e)
  | inl n ↦
      let base = base_name file_name in
      let rounds = suc (suc (length registry.links)) in
      elim (Option-cases (search_name registry.links base base rounds 2)) [
        | inl none_left ↦ absurd (search_name-found registry.links base base none_left)
        | inr (name, e) ↦ (
          (upsert registry name path).0,
          (upsert registry name path).1,
          ground (arith, n, e),
          new_link path name registry (search_name-free registry.links base base rounds 2 e),
        )
      ]
]
