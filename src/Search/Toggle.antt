-- ===== src/Search/Toggle.antt =====
-- What the chip of a level does to the filters that are set.
use rootprint.Common.{
  Text, text_eq, bool_eq, ◌==◌, ◌≡◌, ◌⊎◌, inl, inr, refl, sym, ◌∙◌, ap, arith, Bool, true, false,
  not, ◌&&◌, Option, some, List, [], ◌∷◌, length, nat_eq, filter, is_empty, if◌then◌else◌, ==-sound,
  Bool-cases,
}
use rootprint.Url.{Filter}
use rootprint.Search.{
  opposite, positive_levels, would_select_all_levels, filter_eq, same_filter, has_filter,
  add_filter, remove_filter, clear_level_filters, toggle_level_filter,
}
use rootprint.Search.Filters.{
  after, Consistent, length-filter_self, add_filter-sets, remove_filter-unsets,
}
use rootprint.Search.Chosen.{
  level, WouldChooseAll, known_levels, selects, positive_levels-AreChosen, selects-WouldChooseAll,
  WouldChooseAll-selects,
}

has_filter-filter :
    (p : Filter → Bool) (fs : List Filter) (y : Filter)
    → has_filter (filter p fs) y ≡ (has_filter fs y && p y)
unfolding has_filter
has_filter-filter p [] y = ground arith
has_filter-filter p (f ∷ fs) y =
    ground (arith, has_filter-filter p fs y, λ (h : (f == y) ≡ true). ap p (==-sound f y h))

has_filter-clear :
    (fs : List Filter) (level_field : Text) (y : Filter)
    → has_filter (after fs (clear_level_filters fs level_field)) y
      ≡ (has_filter fs y && not (y.field == level_field && not y.exclude))
unfolding clear_level_filters
has_filter-clear fs level_field y =
    let p : Filter → Bool = λ f. not (f.field == level_field && not f.exclude) in
    elim (Bool-cases (length (filter p fs) == length fs)) [
      | inl same ↦ rw same (
          ap (λ fs'. has_filter fs' y) (sym (length-filter_self p fs (==-sound _ _ same)))
          ∙ has_filter-filter p fs y)
      | inr less ↦ rw less (has_filter-filter p fs y)
    ]

-- The chip of a level takes its filter away where it is set; where it is not, it adds it, or takes every included level
-- away if all would be included.
pub data Toggled (fs next : List Filter) (level_field : Text) (known : List Text) (value : Text)
    : Type 0 where
  removed :
      has_filter fs (level level_field value) ≡ true
      → ((y : Filter)
          → has_filter next y ≡ (if y == level level_field value then false else has_filter fs y))
      → Toggled fs next level_field known value
  cleared :
      has_filter fs (level level_field value) ≡ false
      → WouldChooseAll fs level_field known value
      → ((y : Filter)
          → has_filter next y ≡ (has_filter fs y && not (y.field == level_field && not y.exclude)))
      → Toggled fs next level_field known value
  added :
      has_filter fs (level level_field value) ≡ false
      → ¬ WouldChooseAll fs level_field known value
      → ((y : Filter)
          → has_filter next y ≡ (
              if y == level level_field value
              then true
              else if y == opposite (level level_field value)
              then false
              else has_filter fs y))
      → Toggled fs next level_field known value

toggle_level_filter-cases :
    (fs : List Filter) (level_field : Text) (levels : List Text) (value : Text)
    → is_empty level_field ≡ false
    → (next : Option (List Filter)) → toggle_level_filter fs (some level_field) levels value ≡ next
    → let test = selects (known_levels levels) value (positive_levels level_field fs) in
      ((has_filter fs (level level_field value) ≡ true)
        × (next ≡ remove_filter fs (level level_field value)))
      ⊎ (((has_filter fs (level level_field value) ≡ false)
            × (test ≡ true)
            × (next ≡ clear_level_filters fs level_field))
          ⊎ ((has_filter fs (level level_field value) ≡ false)
              × (test ≡ false)
              × (next ≡ add_filter fs (level level_field value))))
unfolding toggle_level_filter add_filter would_select_all_levels
toggle_level_filter-cases fs level_field levels value full next e =
    elim (Bool-cases (has_filter fs (level level_field value))) [
      | inl old ↦ inl (old, sym (rw (full, old) at e))
      | inr new ↦
          elim (Bool-cases (selects (known_levels levels) value (positive_levels level_field fs))) [
            | inl all_set ↦ inr (inl (new, all_set, sym (rw (full, new, all_set) at e)))
            | inr some_unset ↦
                inr (inr (new, some_unset, rw new (sym (rw (full, new, some_unset) at e))))
          ]
    ]

-- Where the level field has a name and no value is both included and excluded, a click on a level takes its filter
-- away where it is set; where it is not, and the levels chosen would then be all known ones, of at least two and with
-- none excluded, it takes every included level away; and else it adds the filter in place of its opposite. Every
-- other filter stays, those on other fields in any case.
pub toggle_level_filter-Toggled :
    (fs : List Filter) (level_field : Text) (levels : List Text) (value : Text)
    → is_empty level_field ≡ false
    → Consistent fs
    → Toggled fs
        (after fs (toggle_level_filter fs (some level_field) levels value))
        level_field
        (known_levels levels)
        value
      × ((y : Filter)
          → (y.field == level_field) ≡ false
          → has_filter (after fs (toggle_level_filter fs (some level_field) levels value)) y
            ≡ has_filter fs y)
unfolding same_filter
toggle_level_filter-Toggled fs level_field levels value full h =
    let x = level level_field value in
    let known = known_levels levels in
    let chosen = positive_levels-AreChosen fs level_field in
    let included = positive_levels level_field fs in
    elim (toggle_level_filter-cases fs level_field levels value full _ refl) [
      | inl (old, e) ↦ rw e (
        removed old (remove_filter-unsets fs x),
        λ y other. remove_filter-unsets fs x y ∙ rw other (ground arith),
      )
      | inr (inl (new, test, e)) ↦ rw e (
        cleared new (selects-WouldChooseAll fs known level_field value included chosen test)
            (has_filter-clear fs level_field),
        λ y other. has_filter-clear fs level_field y ∙ rw other (ground arith),
      )
      | inr (inr (new, test, e)) ↦ rw e (
        added new
            (λ w.
              cc (WouldChooseAll-selects fs known level_field value included chosen new w, test))
            (λ y. add_filter-sets fs x y h),
        λ y other. add_filter-sets fs x y h ∙ rw other (ground arith),
      )
    ]
