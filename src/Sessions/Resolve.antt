-- ===== src/Sessions/Resolve.antt =====
-- A session is named by its identifier or by a prefix of it: `resolve_session_id_in_map` of
-- src/app/session_api.rs, and the topology of subprocess sessions.
pub mod Unique
use launch_code.Prelude.{
  ℕ, ◌-◌, ◌≡◌, Bool, true, false, not, ◌&&◌, ◌||◌, Option, none, some, List, [], ◌∷◌, ◌++◌, Result,
  ok, err, take, length, is_some, keep, arith, ltb, ◌==◌, if◌then◌else◌,
}
use launch_code.Prelude.Io.{Io, ◌>>=◌, lift}
use launch_code.Text
use launch_code.Text.{Text, codes, starts_with, strip_prefix}
use launch_code.Text.Decimal.{to_string}
use launch_code.Error.{AppError, state, session_not_found, session_id_ambiguous}
use launch_code.Map
use launch_code.Map.{Map}
use launch_code.Model.{SessionRecord}
use launch_code.State.Store.{Serde, World, lift_fs, load}

-- `[_].join(",")`
unfoldable pub join_comma : List Text → Text
join_comma [] = []
join_comma (a ∷ []) = a
join_comma (a ∷ b ∷ rest) = a ++ b',' ∷ join_comma (b ∷ rest)

abbrev pub preview_limit : ℕ
preview_limit = 5

-- The text of the error for several matches. The keys of a `BTreeMap` are sorted already.
unfoldable pub ambiguous_message : Text → List Text → Text
ambiguous_message session_id matches =
    let preview = join_comma (take preview_limit matches) in
    let extra_count = length matches - preview_limit in
    let suffix = if ltb 0 extra_count then codes ",+" ++ to_string extra_count else [] in
    session_id ++ codes "; matches=" ++ preview ++ suffix

unfoldable pub matching_ids : Text → Map SessionRecord → List Text
matching_ids session_id [] = []
matching_ids session_id ((id, _) ∷ rest) =
    let ids = matching_ids session_id rest in if starts_with session_id id then id ∷ ids else ids

unfoldable pub choose_match : Text → List Text → Result AppError Text
choose_match session_id [] = err (session_not_found session_id)
choose_match session_id (id ∷ []) = ok id
choose_match session_id (a ∷ b ∷ rest) =
    err (session_id_ambiguous (ambiguous_message session_id (a ∷ b ∷ rest)))

unfoldable pub resolve_session_id_in_map : Map SessionRecord → Text → Result AppError Text
unfolding matching_ids choose_match
resolve_session_id_in_map sessions session_id =
    if Map.contains_key session_id sessions
    then ok session_id
    else choose_match session_id (matching_ids session_id sessions)

module _ {O : Type 0} (json : Serde) where
  unfoldable pub resolve_session_id : Text → Io (World O) AppError Text
  resolve_session_id session_id = do
    app ← lift_fs state (load json)
    lift (resolve_session_id_in_map app.sessions session_id)

abbrev subprocess_infix : Text
subprocess_infix = codes "-subprocess-"

-- `==` of two `Option<u32>`
unfoldable pub pid_eq : Option ℕ → Option ℕ → Bool
pid_eq none none = true
pid_eq (some a) (some b) = a == b
pid_eq _ _ = false

abbrev pub is_child : SessionRecord → Text → SessionRecord → Bool
is_child session id candidate =
    not (Text.eq id session.id)
    && (starts_with (session.id ++ subprocess_infix) id
        || (is_some session.pid && pid_eq candidate.supervisor_pid session.pid))

-- The identifiers come sorted and without repetition from the map.
unfoldable pub collect_child_session_ids : SessionRecord → Map SessionRecord → List Text
collect_child_session_ids session [] = []
collect_child_session_ids session ((id, candidate) ∷ rest) =
    let ids = collect_child_session_ids session rest in
    if is_child session id candidate then id ∷ ids else ids

-- `split_once` at a text: what stands before its first occurrence.
unfoldable pub before_first : Text → Text → Option Text
before_first p [] = if starts_with p [] then some [] else none
before_first p (c ∷ s) =
    let rest = before_first p s in
    if starts_with p (c ∷ s) then some [] else elim rest [ none ↦ none | some a ↦ some (c ∷ a) ]

-- The other sessions with this process.
unfoldable pub sessions_of_pid : SessionRecord → ℕ → Map SessionRecord → List Text
sessions_of_pid session pid [] = []
sessions_of_pid session pid ((id, candidate) ∷ rest) =
    let ids = sessions_of_pid session pid rest in
    if not (Text.eq id session.id) && pid_eq candidate.pid (some pid) then id ∷ ids else ids

unfoldable pub only_match : List Text → Option Text
only_match (id ∷ []) = some id
only_match _ = none

-- The parent by the process that supervises the session.
unfoldable pub parent_by_pid : SessionRecord → Map SessionRecord → Option ℕ → Option Text
parent_by_pid session sessions none = none
parent_by_pid session sessions (some pid) = only_match (sessions_of_pid session pid sessions)

unfoldable pub parent_by_id : Map SessionRecord → Option Text → Option Text
parent_by_id sessions none = none
parent_by_id sessions (some id) = if Map.contains_key id sessions then some id else none

unfoldable pub infer_parent_session_id : SessionRecord → Map SessionRecord → Option Text
unfolding parent_by_id
infer_parent_session_id session sessions =
    elim (parent_by_id sessions (before_first subprocess_infix session.id)) [
      | some id ↦ some id
      | none ↦ parent_by_pid session sessions session.supervisor_pid
    ]
