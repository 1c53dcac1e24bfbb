-- ===== src/Search/Preferences.antt =====
-- The display preferences of the log search, apps/web/src/lib/components/logs/search.svelte.ts: they are
-- shown at once, saved after a pause, and taken back where that fails. A timer is the save that it would
-- start; the toast of a failure is left out.
pub mod Burst
use rootprint.Common.{
  ℕ, suc, Text, text_eq, nat_eq, ◌==◌, Bool, true, false, not, ◌&&◌, Option, none, some, List, [],
  if◌then◌else◌,
}
use rootprint.Saved.{Preferences, DisplayMode, default_preferences}

-- What the timer or the teardown sends: `commit` with its `indexId`, `seq` and `snapshot`.
pub record PrefSave : Type 0 where
  pub index_id : Text
  pub seq : ℕ
  pub snapshot : Preferences

-- `load` is the `saveSeqAtStart` of the request for the preferences of the selected index, while it is
-- not answered; the effect's cleanup makes that of an index before it stale.
pub record PrefStore : Type 0 where
  pub selected_index : Option Text
  pub shown : Preferences
  pub confirmed : Preferences
  pub save_seq : ℕ
  pub pref_save : Option PrefSave
  pub load : Option ℕ
  pub expanded_folds : List ℕ
  pub disposed : Bool

-- One of the three changes.
pub data Edit : Type 0 where
  active_fields : List Text → Edit
  wrap_lines : Bool → Edit
  mode : DisplayMode → Edit

unfoldable pub edited : Edit → Preferences → Preferences
edited (active_fields next) p = record p { display_fields = some next }
edited (wrap_lines next) p = record p { line_wrap = next }
edited (mode next) p = record p { display_mode = next }

-- Folds are numbered by place, so other columns close them.
abbrev pub folds_after : Edit → List ℕ → List ℕ
folds_after (active_fields next) folds = []
folds_after (wrap_lines next) folds = folds
folds_after (mode next) folds = folds

abbrev pub save_for : Option Text → PrefStore → PrefStore
save_for none s = s
save_for (some index_id) s = record s {
  save_seq = suc s.save_seq;
  pref_save = some (record { index_id = index_id; seq = suc s.save_seq; snapshot = s.shown });
}

-- A save that waits is dropped for the new one.
unfoldable pub save_prefs : PrefStore → PrefStore
save_prefs s = save_for s.selected_index s

-- `setActiveFields`, `setLineWrap` and `setDisplayMode`
unfoldable pub edit : PrefStore → Edit → PrefStore
unfolding edited save_prefs
edit s e =
    save_prefs
      (record s { shown = edited e s.shown; expanded_folds = folds_after e s.expanded_folds })

-- The timer: what it sends, and the state without the timer.
unfoldable pub commit : PrefStore → Option PrefSave × PrefStore
commit s = (s.pref_save, record s { pref_save = none })

abbrev pub is_selected : Option Text → Text → Bool
is_selected none index_id = false
is_selected (some i) index_id = i == index_id

-- No later change and no other index.
abbrev pub is_latest : PrefSave → PrefStore → Bool
is_latest p s = is_selected s.selected_index p.index_id && p.seq == s.save_seq

unfoldable pub saved : PrefSave → Preferences → PrefStore → PrefStore
saved p answer s = if is_latest p s then record s { confirmed = answer } else s

unfoldable pub save_failed : PrefSave → PrefStore → PrefStore
save_failed p s = if not s.disposed && is_latest p s then record s { shown = s.confirmed } else s

-- Another index: its preferences are asked for.
unfoldable pub select_index : Text → PrefStore → PrefStore
select_index index_id s = record s { selected_index = some index_id; load = some s.save_seq }

abbrev loaded_at : Option ℕ → Preferences → PrefStore → PrefStore
loaded_at none prefs s = s
loaded_at (some seq) prefs s =
    if seq == s.save_seq
    then record s { load = none; confirmed = prefs; shown = prefs }
    else record s { load = none; confirmed = prefs }

-- A failed request is answered by the defaults.
unfoldable pub loaded : Option Preferences → PrefStore → PrefStore
loaded none s = loaded_at s.load default_preferences s
loaded (some prefs) s = loaded_at s.load prefs s

-- The teardown sends what waits; the timer is cleared.
unfoldable pub dispose : PrefStore → Option PrefSave × PrefStore
dispose s =
    if s.disposed then (none, s) else (s.pref_save, record s { disposed = true; pref_save = none })
