-- ===== src/Tests/Names.antt =====
-- Names of sessions and links at concrete inputs.
use launch_code.Prelude.{◌≡◌, refl, true, false, some, none, [], ◌∷◌, ok, ◌↔◌, ◌⊎◌, Bool}
use launch_code.Text
use launch_code.Text.{Text, codes, starts_with}
use launch_code.Text.Decimal.{to_string, digits}
use launch_code.Map
use launch_code.Map.{Map}
use launch_code.Model.{AppState}
use launch_code.Sessions.Resolve.{resolve_session_id_in_map, choose_match, matching_ids}
use launch_code.Sessions.Resolve.Unique.{resolve_session_id-IsUnique}
use launch_code.Dap.Subprocess.{
  DebugpyAttachTarget, unique_session_id, register_mutation, child_base, child_session,
}
use launch_code.Dap.Subprocess.Fresh.{
  Registered, unique_session_id-none_iff, register_mutation-Registered,
}
use launch_code.Links.{LinkRegistry, LinkRecord, ensure_link}
use launch_code.Links.Ensure.{Ensured, ensure_link-Ensured}
use launch_code.Tests.Control.{one_app, one_session, counting_machine}

resolves : resolve_session_id_in_map one_app.sessions (codes "s") ≡ ok (codes "s1")
unfolding resolve_session_id_in_map matching_ids choose_match Map.get Text.eq starts_with
resolves = refl

resolve_session_id-IsUnique_example :
    (Map.contains_key (codes "s1") one_app.sessions ≡ true)
    × (starts_with (codes "s") (codes "s1") ≡ true)
    × ((codes "s1" ≡ codes "s")
        ⊎ ((j : Text)
            → Map.contains_key j one_app.sessions ≡ true
            → starts_with (codes "s") j ≡ true
            → j ≡ codes "s1"))
resolve_session_id-IsUnique_example =
    resolve_session_id-IsUnique one_app.sessions (codes "s") (codes "s1") resolves

unique_session_id-none_iff_example :
    (unique_session_id one_app.sessions (codes "s1") false ≡ none)
    ↔ ((◌≡◌ {A = Bool} false false) × (Map.contains_key (codes "s1") one_app.sessions ≡ true))
unique_session_id-none_iff_example = unique_session_id-none_iff one_app.sessions (codes "s1") false

abbrev child_target : DebugpyAttachTarget
child_target = record { host = codes "h"; port = 5; process_id = none }

abbrev child_name : Text
child_name = codes "s1-subprocess-5"

abbrev with_child : AppState
with_child = record one_app {
  sessions =
      (codes "s1", one_session)
      ∷ (child_name, child_session child_name child_target one_session 1000)
      ∷ [];
}

register_runs :
    register_mutation counting_machine (codes "s1") child_target none one_app 0
    ≡ (ok (with_child, child_name), 0)
unfolding register_mutation unique_session_id child_base to_string digits Map.get Map.insert Text.eq
    Text.lt
register_runs = refl

register_mutation-Registered_example :
    Registered (codes "s1") child_target one_app with_child child_name
register_mutation-Registered_example =
    register_mutation-Registered counting_machine (codes "s1") child_target none one_app 0
      register_runs

abbrev one_link : LinkRegistry
one_link = record {
  schema_version = 1;
  links = (codes "app", record { name = codes "app"; path = codes "/a/app" }) ∷ [];
}

ensure_link-Ensured_example :
    (registry : LinkRegistry) × (link : LinkRecord) × (ensure_link
        (codes "/b/app")
        (some (codes "App"))
        one_link
      ≡ some (registry, link))
    × Ensured (codes "/b/app") one_link registry link
ensure_link-Ensured_example = ensure_link-Ensured (codes "/b/app") (some (codes "App")) one_link
