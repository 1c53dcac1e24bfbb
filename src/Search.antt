-- ===== src/Search.antt =====
-- The filters of the log search and its navigation: apps/web/src/lib/components/logs/search.svelte.ts.
-- The search's query is what the page's URL says; an operation that changes it navigates.
pub mod Levels
pub mod Filters
pub mod Chosen
pub mod Toggle
pub mod Requests
pub mod Preferences
use rootprint.Common.{
  Text, codes, text_eq, bool_eq, nat_eq, Eq, ◌==◌, ◌≡◌, ◌↔◌, refl, arith, Bool, true, false, not,
  ◌&&◌, ◌||◌, Option, none, some, List, [], ◌∷◌, ◌++◌, if◌then◌else◌, any, all, filter, includes,
  is_empty, length, leb, map, ==-sound, ==-refl,
}
use mathlib.Core.Option
use rootprint.Url.{
  Filter, SortDirection, asc, desc, ParsedQuery, Numbers, Params, has_fold, build_query_url,
}

-- `f.field === field && f.value === value && f.exclude === exclude`
unfoldable pub same_filter : Filter → Filter → Bool
same_filter f g = f.field == g.field && f.value == g.value && f.exclude == g.exclude

pub same_record :
    {f g : Filter} → f.field ≡ g.field → f.value ≡ g.value → f.exclude ≡ g.exclude → f ≡ g
same_record p q r = λ i. record { field = p i; value = q i; exclude = r i }

pub same_filter_iff : (f g : Filter) → (same_filter f g ≡ true) ↔ (f ≡ g)
unfolding same_filter
same_filter_iff f g = (
  λ h.
      same_record (==-sound f.field g.field (ground (arith, h)))
        (==-sound f.value g.value (ground (arith, h)))
        (==-sound f.exclude g.exclude (ground (arith, h))),
  λ e. rw (e, ==-refl g.field, ==-refl g.value, ==-refl g.exclude) refl,
)

instance abbrev pub filter_eq : Eq Filter
filter_eq = record { same = same_filter; same_iff = same_filter_iff }

unfoldable pub has_filter : List Filter → Filter → Bool
has_filter filters x = any (λ f. f == x) filters

abbrev pub opposite : Filter → Filter
opposite x = record x { exclude = not x.exclude }

abbrev pub drop_filter : List Filter → Filter → List Filter
drop_filter filters x = filter (λ f. not (f == x)) filters

-- The operations give the list that they navigate to, or nothing where they return early.
pub add_filter : List Filter → Filter → Option (List Filter)
unfolding has_filter
add_filter current x =
    if has_filter current x then none else some (drop_filter current (opposite x) ++ x ∷ [])

pub remove_filter : List Filter → Filter → Option (List Filter)
remove_filter filters x =
    let next = drop_filter filters x in if length next == length filters then none else some next

pub clear_filters : List Filter → Option (List Filter)
clear_filters filters = if is_empty filters then none else some []

-- The included values of a field, or nothing where one is excluded.
pub positive_levels : Text → List Filter → Option (List Text)
positive_levels level_field [] = some []
positive_levels level_field (f ∷ filters) =
    let rest = positive_levels level_field filters in
    if not (f.field == level_field)
    then rest
    else if f.exclude
    then none
    else Option.map (λ vs. f.value ∷ vs) rest

pub would_select_all_levels : List Filter → List Text → Text → Text → Bool
unfolding positive_levels
would_select_all_levels filters known level_field new_value =
    elim (positive_levels level_field filters) [
      | none ↦ false
      | some positive ↦
          not (includes positive new_value)
          && all (λ v. v == new_value || includes positive v) known
          && all (λ v. includes (known ++ new_value ∷ []) v) positive
    ]

pub clear_level_filters : List Filter → Text → Option (List Filter)
clear_level_filters filters level_field =
    let next = filter (λ f. not (f.field == level_field && not f.exclude)) filters in
    if length next == length filters then none else some next

-- The display name of records without a level.
abbrev pub unknown_level : Text
unknown_level = codes "UNKNOWN"

-- `levels` are the names that the level chips show.
unfoldable pub toggle_level_filter :
    List Filter → Option Text → List Text → Text → Option (List Filter)
unfolding add_filter remove_filter would_select_all_levels clear_level_filters
toggle_level_filter filters none levels value = none
toggle_level_filter filters (some level_field) levels value =
    let x : Filter = record { field = level_field; value = value; exclude = false } in
    let known = filter (λ n. not (n == unknown_level)) levels in
    if is_empty level_field
    then none
    else if has_filter filters x
    then remove_filter filters x
    else if leb 2 (length known) && would_select_all_levels filters known level_field value
    then clear_level_filters filters level_field
    else add_filter filters x

-- What a request to show a query does: it shows the same view again, or it goes to a URL, in place of
-- the present one or after it.
pub data Navigation : Type 0 where
  rerun : Navigation
  goto : (url : Params) → (replace : Bool) → Navigation

params_beq : Params → Params → Bool
params_beq [] [] = true
params_beq ((k, v) ∷ ps) ((j, w) ∷ qs) = k == j && v == w && params_beq ps qs
params_beq _ _ = false

module _ (num : Numbers) where
  pub navigate_query : Params → (ParsedQuery → ParsedQuery) → Bool → Navigation
  unfolding params_beq
  navigate_query current partial push =
      let url = build_query_url num current partial (has_fold num current) in
      if params_beq url (build_query_url num current (λ q. q) (has_fold num current))
      then rerun
      else goto url (not push)

  pub navigate_filters : Params → Option (List Filter) → Option Navigation
  navigate_filters current next =
      Option.map (λ fs. navigate_query current (λ q. record q { filters = fs }) false) next

  pub handle_index_change : Params → Text → Navigation
  handle_index_change current index_id =
      navigate_query current (λ q. record q { index = some index_id; query = []; filters = [] })
        true

  abbrev flipped : SortDirection → SortDirection
  flipped asc = desc
  flipped desc = asc

  pub toggle_sort : Params → Navigation
  toggle_sort current =
      navigate_query current (λ q. record q { sort_direction = flipped q.sort_direction }) true
