-- ===== src/Saved.antt =====
-- What users keep: view.service.ts, preference.service.ts and share.service.ts of apps/api/src/services. A
-- table is the list of its rows, with the unique indexes of apps/api/src/db/schema.ts; the dates of the
-- rows are left out.
pub mod Owners
pub mod Prefs
use rootprint.Common.{
  ℕ, Text, codes, text_eq, nat_eq, Eq, ◌==◌, ◌≡◌, ◌↔◌, refl, ap, ap₂, arith, Bool, true, false, not,
  ◌&&◌, Option, none, some, List, [], ◌∷◌, ◌++◌, if◌then◌else◌, any, filter, find, map, includes,
  ==-refl, ==-sound,
}
use mathlib.Core.Option
use rootprint.Common.Dict
use rootprint.Common.Dict.{Dict}
use rootprint.Http.{Result, ok, fail, raise, unique_violation, not_found, with_unique_violation}
use rootprint.Url.{Filter, SortDirection, TimeRange}

pub record View : Type 0 where
  pub id : ℕ
  pub user_id : Text
  pub index_id : Text
  pub name : Text
  pub query : Text
  pub filters : List Filter
  pub sort_direction : SortDirection
  pub columns : Option (List Text)
  pub time_range : Option TimeRange

-- A field that is absent is left as it is.
pub record ViewPatch : Type 0 where
  pub name : Option Text
  pub query : Option Text
  pub filters : Option (List Filter)
  pub sort_direction : Option SortDirection
  pub columns : Option (Option (List Text))
  pub time_range : Option (Option TimeRange)

abbrev same_name : View → View → Bool
same_name v w = v.user_id == w.user_id && v.index_id == w.index_id && v.name == w.name

abbrev name_taken : {A : Type 0} → Result A → Result A
name_taken r =
    with_unique_violation (codes "A view with this name already exists") (codes "VIEW_NAME_TAKEN") r

pub list_views : Text → Text → List View → List View
list_views user_id index_id views =
    filter (λ v. v.user_id == user_id && v.index_id == index_id) views

-- `row` is the row that the statement inserts, with its id and its defaults.
pub create_view : View → List View → Result View × List View
create_view row views =
    if any (same_name row) views
    then (name_taken (raise unique_violation), views)
    else (ok row, row ∷ views)

abbrev pub is_owned : Text → ℕ → Text → View → Bool
is_owned user_id id index_id v = v.id == id && v.user_id == user_id && v.index_id == index_id

abbrev pub patched : ViewPatch → View → View
patched patch v = record {
  id = v.id;
  user_id = v.user_id;
  index_id = v.index_id;
  name = Option.get_or patch.name v.name;
  query = Option.get_or patch.query v.query;
  filters = Option.get_or patch.filters v.filters;
  sort_direction = Option.get_or patch.sort_direction v.sort_direction;
  columns = Option.get_or patch.columns v.columns;
  time_range = Option.get_or patch.time_range v.time_range;
}

-- The row that the update meets.
pub update_row : Text → ℕ → Text → ViewPatch → List View → Option View → Result View × List View
update_row user_id id index_id patch views none =
    (fail (not_found (codes "View not found") (codes "NOT_FOUND")), views)
update_row user_id id index_id patch views (some row) =
    if any (λ v. same_name (patched patch row) v && not (v.id == row.id)) views
    then (name_taken (raise unique_violation), views)
    else (
      ok (patched patch row),
      map (λ v. if is_owned user_id id index_id v then patched patch v else v) views,
    )

pub update_owned_view : Text → ℕ → Text → ViewPatch → List View → Result View × List View
unfolding update_row
update_owned_view user_id id index_id patch views =
    update_row user_id id index_id patch views (find (is_owned user_id id index_id) views)

pub delete_owned_view : Text → ℕ → Text → List View → Result (Unit {0}) × List View
delete_owned_view user_id id index_id views =
    if any (is_owned user_id id index_id) views
    then (ok tt, filter (λ v. not (is_owned user_id id index_id v)) views)
    else (fail (not_found (codes "View not found") (codes "NOT_FOUND")), views)

pub data DisplayMode : Type 0 where
  table inline : DisplayMode

pub record Preferences : Type 0 where
  pub display_fields : Option (List Text)
  pub line_wrap : Bool
  pub display_mode : DisplayMode

-- The unique index of the table: a user and an index.
abbrev pub PrefKey : Type 0
PrefKey = Text × Text

abbrev pub pref_same : PrefKey → PrefKey → Bool
pref_same (u, i) (v, j) = u == v && i == j

pub pref_same_iff : (a b : PrefKey) → (pref_same a b ≡ true) ↔ (a ≡ b)
pref_same_iff (u, i) (v, j) = (
  λ h. ap₂ (λ x y. (x, y)) (==-sound u v (ground (arith, h))) (==-sound i j (ground (arith, h))),
  λ e. rw (ap (λ k. k.0) e, ap (λ k. k.1) e, ==-refl v, ==-refl j) refl,
)

instance abbrev pub pref_eq : Eq PrefKey
pref_eq = record { same = pref_same; same_iff = pref_same_iff }

-- `Array.from(new Set(xs))`, from the values that are kept already
pub unique_from : List Text → List Text → List Text
unique_from kept [] = kept
unique_from kept (x ∷ xs) =
    let same = unique_from kept xs in
    let more = unique_from (kept ++ x ∷ []) xs in if includes kept x then same else more

abbrev pub stored : Preferences → Preferences
stored input = record input { display_fields = Option.map (unique_from []) input.display_fields }

abbrev pub default_preferences : Preferences
default_preferences = record { display_fields = none; line_wrap = false; display_mode = table }

pub get_preferences : Text → Text → Dict PrefKey Preferences → Preferences
get_preferences user_id index_id rows =
    Option.get_or (Dict.get rows (user_id, index_id)) default_preferences

pub put_preferences :
    Text → Text → Preferences → Dict PrefKey Preferences → Preferences × Dict PrefKey Preferences
put_preferences user_id index_id input rows =
    (stored input, Dict.set rows (user_id, index_id) (stored input))

-- `Hit` is the shared document.
pub record Share (Hit : Type 0) : Type 0 where
  pub code : Text
  pub user_id : Text
  pub index_id : Text
  pub query : Text
  pub start_time : ℕ
  pub end_time : ℕ
  pub hit : Hit
  pub filters : List Filter

module _ {Hit : Type 0} where
  -- The code is drawn.
  pub create_share : Share Hit → List (Share Hit) → Result Text × List (Share Hit)
  create_share row shares =
      if any (λ s. s.code == row.code) shares
      then (raise unique_violation, shares)
      else (ok row.code, row ∷ shares)

  pub resolve_share : Text → List (Share Hit) → Result (Share Hit)
  resolve_share code shares = elim (find (λ s. s.code == code) shares) [
    | none ↦ fail (not_found (codes "Share not found") (codes "SHARE_NOT_FOUND"))
    | some s ↦ ok s
  ]
