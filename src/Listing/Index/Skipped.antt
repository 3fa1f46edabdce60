-- ===== src/Listing/Index/Skipped.antt =====
-- Which workspaces a list skips.
use mathlib.Core.Path.{subst}
use launch_code.Prelude.{
  ◌<◌, ◌≡◌, refl, ap, ◌∙◌, Bool, true, false, Option, none, some, List, [], ◌∷◌, length, keep,
  arith, if◌then◌else◌,
}
use launch_code.Text
use launch_code.Text.{Text}
use launch_code.Map
use launch_code.Model.{SessionRecord, SessionStatus, running, stopped, suspended, unknown}
use launch_code.Batch.{
  ListStatusArg, running_arg, stopped_arg, suspended_arg, unknown_arg, ListFilters,
  matches_list_status,
}
use launch_code.Listing.{matches_list_filters, list_status_matches}
use launch_code.Listing.Index.{
  StateFileSignature, LinkSessionStatusSummary, GlobalListScanIndex, status_count, skip_summary,
  should_skip_for_filters, count_status, count_sessions, update_link_summary,
}

-- A count only grows.
count_status-grows :
    (arg : Option ListStatusArg) (status : SessionStatus) (s : LinkSessionStatusSummary)
    → 0 < status_count s arg
    → 0 < status_count (count_status status s) arg
unfolding count_status status_count
count_status-grows none running s h = h
count_status-grows none stopped s h = h
count_status-grows none suspended s h = h
count_status-grows none unknown s h = h
count_status-grows (some arg) status s h = ground arith

count_sessions-grows :
    (arg : Option ListStatusArg) (s : LinkSessionStatusSummary) (sessions : List SessionRecord)
    → 0 < status_count s arg
    → 0 < status_count (count_sessions s sessions) arg
unfolding count_sessions
count_sessions-grows arg s [] h = h
count_sessions-grows arg s (x ∷ xs) h =
    count_sessions-grows arg (count_status x.status s) xs (count_status-grows arg x.status s h)

counted :
    (arg : ListStatusArg) (status : SessionStatus) (s : LinkSessionStatusSummary)
    → matches_list_status arg status ≡ true
    → 0 < status_count (count_status status s) (some arg)
unfolding count_status status_count matches_list_status
counted running_arg status s h = ground (arith, h)
counted stopped_arg status s h = ground (arith, h)
counted suspended_arg status s h = ground (arith, h)
counted unknown_arg status s h = ground (arith, h)

matched_status :
    (to_lowercase : Text → Text) (filters : ListFilters) (arg : ListStatusArg) (x : SessionRecord)
    → filters.status_filter ≡ some arg
    → matches_list_filters to_lowercase filters x ≡ true
    → matches_list_status arg x.status ≡ true
unfolding matches_list_filters list_status_matches
matched_status to_lowercase filters arg x e m =
    subst (λ o. list_status_matches o x.status ≡ true) e (ground (arith, m))

none_counted :
    (to_lowercase : Text → Text) (filters : ListFilters) (arg : ListStatusArg)
    (s : LinkSessionStatusSummary) (sessions : List SessionRecord)
    → filters.status_filter ≡ some arg
    → status_count (count_sessions s sessions) (some arg) ≡ 0
    → keep (matches_list_filters to_lowercase filters) sessions ≡ []
unfolding count_sessions keep
none_counted to_lowercase filters arg s [] e h = refl
none_counted to_lowercase filters arg s (x ∷ xs) e h =
    by_test (matches_list_filters to_lowercase filters x) refl
      (none_counted to_lowercase filters arg (count_status x.status s) xs e h)
  where
    by_test :
        (b : Bool)
        → matches_list_filters to_lowercase filters x ≡ b
        → keep (matches_list_filters to_lowercase filters) xs ≡ []
        → (if b
            then x ∷ keep (matches_list_filters to_lowercase filters) xs
            else keep (matches_list_filters to_lowercase filters) xs)
          ≡ []
    by_test true m rest = absurd (omega (arith, h, grown))
      where
        grown : 0 < status_count (count_sessions (count_status x.status s) xs) (some arg)
        grown =
            count_sessions-grows (some arg) (count_status x.status s) xs
              (counted arg x.status s (matched_status to_lowercase filters arg x e m))
    by_test false m rest = rest

total_kept :
    (s : LinkSessionStatusSummary) (sessions : List SessionRecord)
    → (count_sessions s sessions).total_count ≡ s.total_count
unfolding count_sessions count_status
total_kept s [] = refl
total_kept s (x ∷ xs) = ground (arith, total_kept (count_status x.status s) xs)

skip_counts :
    (t : LinkSessionStatusSummary) (signature : StateFileSignature) (filters : ListFilters)
    → skip_summary (some t) signature filters ≡ true
    → 0 < t.total_count
    → status_count t filters.status_filter ≡ 0
unfolding skip_summary
skip_counts t signature filters h some_session = ground (arith, h, some_session)

skipped_summary :
    (to_lowercase : Text → Text) (filters : ListFilters) (signature : StateFileSignature)
    (s : LinkSessionStatusSummary) (sessions : List SessionRecord)
    → s.total_count ≡ length sessions
    → skip_summary (some (count_sessions s sessions)) signature filters ≡ true
    → keep (matches_list_filters to_lowercase filters) sessions ≡ []
unfolding status_count keep
skipped_summary to_lowercase filters signature s [] total h = refl
skipped_summary to_lowercase filters signature s (x ∷ xs) total h =
    by_filter filters.status_filter refl
  where
    of_filter :
        (o : Option ListStatusArg)
        → filters.status_filter ≡ o
        → status_count (count_sessions s (x ∷ xs)) o ≡ 0
    of_filter o e =
        subst (λ p. status_count (count_sessions s (x ∷ xs)) p ≡ 0) e
          (skip_counts (count_sessions s (x ∷ xs)) signature filters h
            (omega (arith, total, total_kept s (x ∷ xs))))

    by_filter :
        (o : Option ListStatusArg)
        → filters.status_filter ≡ o
        → keep (matches_list_filters to_lowercase filters) (x ∷ xs) ≡ []
    by_filter none e = absurd (omega (arith, of_filter none e, total, total_kept s (x ∷ xs)))
    by_filter (some arg) e =
        none_counted to_lowercase filters arg s (x ∷ xs) e (of_filter (some arg) e)

-- A workspace is skipped in a list only if, of the sessions that it had when its state file was last
-- read, none passes the filters of the list.
pub should_skip_for_filters-none :
    (to_lowercase : Text → Text) (filters : ListFilters) (link_path : Text)
    (signature now : StateFileSignature) (sessions : List SessionRecord)
    (index : GlobalListScanIndex)
    → should_skip_for_filters
        (update_link_summary link_path signature sessions index)
        link_path
        now
        filters
      ≡ true
    → keep (matches_list_filters to_lowercase filters) sessions ≡ []
unfolding should_skip_for_filters update_link_summary
should_skip_for_filters-none to_lowercase filters link_path signature now sessions index h =
    skipped_summary to_lowercase filters now none_yet sessions refl
      (subst (λ o. skip_summary o now filters ≡ true) found h)
  where
    none_yet : LinkSessionStatusSummary
    none_yet = record {
      state_signature = signature;
      total_count = length sessions;
      running_count = 0;
      stopped_count = 0;
      suspended_count = 0;
      unknown_count = 0;
    }

    summary : LinkSessionStatusSummary
    summary = count_sessions none_yet sessions

    found : Map.get link_path (Map.insert link_path summary index.doc.links) ≡ some summary
    found =
        Map.get-insert link_path link_path summary index.doc.links
        ∙ ap (λ b. if b then some summary else Map.get link_path index.doc.links)
            (Text.eq_refl link_path)
