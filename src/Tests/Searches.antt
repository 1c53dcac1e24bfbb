-- ===== src/Tests/Searches.antt =====
-- A search whose filters change, whose rows arrive in two pages, and whose lines are folded.
use rootprint.Common.{
  ℕ, ◌≡◌, refl, Text, codes, text_beq, text_eq, bool_beq, nat_eq, ◌==◌, true, false, none, some,
  List, [], ◌∷◌, ◌++◌, length, take, drop, any,
}
use rootprint.Common.Dict.{Dict}
use rootprint.Url.{Filter, desc}
use rootprint.Search.{filter_eq, same_filter, has_filter, opposite, add_filter, toggle_level_filter}
use rootprint.Saved.{default_preferences}
use rootprint.Search.Preferences.{
  PrefSave, PrefStore, active_fields, wrap_lines, edit, commit, saved, save_failed, select_index,
  loaded,
}
use rootprint.Search.Preferences.Burst.{edits, all_edited, InStep, edits-saved_or_undone}
use rootprint.Search.Filters.{after, Consistent, add_filter-Consistent}
use rootprint.Search.Chosen.{level, known_levels}
use rootprint.Search.Toggle.{Toggled, toggle_level_filter-Toggled}
use rootprint.Search.Levels.{LevelBucket}
use rootprint.Search.Requests.{
  SearchInput, HistogramInput, SearchResult, SearchStore, Hits, Request, initial, run_search,
  first_page, first_input,
}
use rootprint.Search.Requests.Settle.{on_result, new_hits}
use rootprint.Search.Requests.Shown.{
  BackendLaws, Reachable, start, searched, answered, IsShown, Reachable-IsShown,
}
use rootprint.Search.Requests.Status.{ends_search, hits_status-served}
use rootprint.Query.{escape_filter_value, quoted_body, quote, compose_query}
use rootprint.Query.Escape.{read_quoted, read_quoted-quoted_body}
use rootprint.Fold.{LogHit, fold_runs, group_consecutive_hits}
use rootprint.Fold.Runs.{concat, AreRuns, key_of}
use rootprint.Fold.Rows.{stands_for, fold_runs-group_consecutive_hits}

abbrev error_level : Filter
error_level = level (codes "level") (codes "error")

nothing-Consistent : Consistent []
unfolding Consistent has_filter
nothing-Consistent y e = refl

abbrev errors : List Filter
errors = after [] (add_filter [] error_level)

abbrev levels : List Text
levels = codes "error" ∷ codes "info" ∷ []

toggle_level_filter-Toggled_example :
    Toggled errors
      (after errors (toggle_level_filter errors (some (codes "level")) levels (codes "info")))
      (codes "level")
      (known_levels levels)
      (codes "info")
    × ((y : Filter)
        → (y.field == codes "level") ≡ false
        → has_filter
            (after errors (toggle_level_filter errors (some (codes "level")) levels (codes "info")))
            y
          ≡ has_filter errors y)
toggle_level_filter-Toggled_example =
    toggle_level_filter-Toggled errors (codes "level") levels (codes "info") refl
      (add_filter-Consistent [] error_level nothing-Consistent)

-- Both levels selected is none selected.
toggle_level_filter_test :
    toggle_level_filter (error_level ∷ []) (some (codes "level")) levels (codes "info") ≡ some []
unfolding toggle_level_filter text_beq bool_beq same_filter
toggle_level_filter_test = refl

-- A backend that holds the same three rows for every search.
abbrev three : List ℕ
three = 7 ∷ 8 ∷ 9 ∷ []

abbrev counted_hits : List ℕ → ℕ
counted_hits rows = length rows

abbrev backend : SearchInput → SearchResult ℕ ℕ counted_hits
backend input = record {
  raw_hits = take input.limit (drop input.offset three);
  elapsed_time_micros = 5;
}

backend-laws : BackendLaws counted_hits backend (λ input. three)
backend-laws = record { same_rows = λ input n. refl; page = λ input. refl }

abbrev window : HistogramInput
window = record { index_id = codes "logs"; query = codes "*"; start_ts = 10; end_ts = 20 }

abbrev asked : SearchStore ℕ ℕ counted_hits
asked = (run_search ℕ ℕ counted_hits (some window) desc (initial ℕ ℕ counted_hits)).1

abbrev in_flight : List (Request ℕ ℕ counted_hits)
in_flight = (run_search ℕ ℕ counted_hits (some window) desc (initial ℕ ℕ counted_hits)).0

asked-Reachable : Reachable counted_hits backend (λ input. three) asked (in_flight ++ [])
asked-Reachable = searched (some window) desc start

hits_status-served_example :
    any (ends_search counted_hits backend (λ input. three) asked.live) (in_flight ++ []) ≡ true
unfolding run_search
hits_status-served_example =
    hits_status-served counted_hits backend (λ input. three) asked-Reachable refl

abbrev request : Request ℕ ℕ counted_hits
request = first_page 0 (first_input ℕ ℕ counted_hits window desc) false

abbrev shown : Hits ℕ ℕ counted_hits
shown =
    new_hits ℕ ℕ counted_hits (first_input ℕ ℕ counted_hits window desc)
      (backend (first_input ℕ ℕ counted_hits window desc))

Reachable-IsShown_example : IsShown counted_hits backend (λ input. three) shown
unfolding run_search on_result
Reachable-IsShown_example =
    Reachable-IsShown counted_hits backend (λ input. three) shown backend-laws
      (answered [] request [] (first_input ℕ ℕ counted_hits window desc) asked-Reachable) refl

abbrev tricky : Text
tricky = 97 ∷ quote ∷ 32 ∷ 92 ∷ []

read_quoted-quoted_body_example :
    read_quoted (quoted_body tricky ++ quote ∷ codes " OR a:b") ≡ some (tricky, codes " OR a:b")
read_quoted-quoted_body_example = read_quoted-quoted_body tricky (codes " OR a:b")

compose_query_test :
    compose_query
      (codes " up ")
      (error_level ∷ level (codes "level") (codes "a b") ∷ opposite error_level ∷ [])
    ≡ codes "( up ) AND (level:error OR level:\"a b\") AND NOT level:error"
unfolding compose_query escape_filter_value text_beq
compose_query_test = refl

abbrev line : Text → Text → LogHit Text
line key text = record {
  key = key;
  timestamp = [];
  level = codes "info";
  message = text;
  raw = text;
}

abbrev shown_cell : Text → Text → Text
shown_cell raw column = raw

abbrev joined : List Text → Text
joined parts = concat parts

abbrev repeated : List (LogHit Text)
repeated = line (codes "2") (codes "up") ∷ line (codes "3") (codes "down") ∷ []

abbrev groups : List (List (LogHit Text))
groups =
    group_consecutive_hits joined shown_cell (line (codes "1") (codes "up") ∷ repeated)
      (codes "body" ∷ []) none

-- Two buckets of a histogram after a filter has hidden the warnings.
abbrev histogram : List (Dict Text ℕ)
histogram = ((codes "error", 2) ∷ []) ∷ ((codes "info", 5) ∷ (codes "error", 1) ∷ []) ∷ []

abbrev roster : List LevelBucket
roster =
    record { name = codes "warn"; count = some 4 }
    ∷ record { name = codes "error"; count = some 9 }
    ∷ []

abbrev opened_page : PrefStore
opened_page = record {
  selected_index = some (codes "logs");
  shown = default_preferences;
  confirmed = default_preferences;
  save_seq = 0;
  pref_save = none;
  load = none;
  expanded_folds = 2 ∷ [];
  disposed = false;
}

-- The columns are chosen and then the lines wrapped, before the timer runs out.
abbrev two_edits : PrefStore
two_edits = edits (active_fields (codes "level" ∷ []) ∷ wrap_lines true ∷ []) opened_page

edits-saved_or_undone_example :
    (p : PrefSave) × (two_edits.shown
      ≡ all_edited (active_fields (codes "level" ∷ []) ∷ wrap_lines true ∷ []) default_preferences)
    × ((commit two_edits).0 ≡ some p)
    × (p.snapshot
        ≡ all_edited
            (active_fields (codes "level" ∷ []) ∷ wrap_lines true ∷ [])
            default_preferences)
    × InStep
        (saved p p.snapshot (commit two_edits).1)
        (all_edited (active_fields (codes "level" ∷ []) ∷ wrap_lines true ∷ []) default_preferences)
    × InStep (save_failed p (commit two_edits).1) default_preferences
edits-saved_or_undone_example =
    edits-saved_or_undone (codes "logs") (active_fields (codes "level" ∷ [])) (wrap_lines true ∷ [])
      opened_page refl refl refl

-- The index is changed to one whose preferences wrap lines, and edited before these have come; the save
-- fails. What was shown for the index before stays, although the preferences of this one have come.
abbrev changed_index : PrefStore
changed_index = edit (select_index (codes "audit") opened_page) (active_fields [])

abbrev failed_early : PrefStore
failed_early = loaded (some (record default_preferences { line_wrap = true })) (
    save_failed (record { index_id = codes "audit"; seq = 1; snapshot = changed_index.shown })
      (commit changed_index).1)

failed_early_test :
    (failed_early.shown ≡ default_preferences)
    × (failed_early.confirmed ≡ record default_preferences { line_wrap = true })
unfolding loaded save_failed commit edit select_index text_beq
failed_early_test = (refl, refl)

-- A change for one index, and one for another index before the first is saved: the first save is dropped.
abbrev second_index : PrefStore
second_index =
    edit (select_index (codes "audit") (edit opened_page (wrap_lines true))) (active_fields [])

dropped_save_test :
    second_index.pref_save
    ≡ some (record {
      index_id = codes "audit";
      seq = 2;
      snapshot = record default_preferences { display_fields = some []; line_wrap = true };
    })
unfolding edit select_index
dropped_save_test = refl

fold_runs-group_consecutive_hits_example :
    (concat groups ≡ line (codes "1") (codes "up") ∷ repeated)
    × AreRuns joined shown_cell
        (codes "body" ∷ [])
        none
        (key_of joined shown_cell (codes "body" ∷ []) none (line (codes "1") (codes "up")))
        groups
    × (stands_for (fold_runs groups (codes "2" ∷ []))
        ≡ length (line (codes "1") (codes "up") ∷ repeated))
fold_runs-group_consecutive_hits_example =
    fold_runs-group_consecutive_hits joined shown_cell (codes "body" ∷ []) none
      (line (codes "1") (codes "up")) repeated (codes "2" ∷ [])
