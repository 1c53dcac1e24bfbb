-- ===== src/Fields.antt =====
-- The field panel of the log search, `buildFieldSections` of apps/web/src/lib/components/logs/field-list.ts.
-- `lower` is toLowerCase, and `tie_before` the order of two rows of one count: their labels by a
-- collator and then their names by localeCompare.
pub mod Sections
use rootprint.Common.{
  ℕ, Text, codes, text_eq, nat_eq, ◌==◌, Bool, not, ◌&&◌, ◌||◌, Option, List, [], ◌∷◌, ◌++◌,
  if◌then◌else◌, includes, is_empty, contains, starts_with, ltb,
}
use mathlib.Core.Option
use rootprint.Common.Dict
use rootprint.Common.Dict.{Dict}
use rootprint.Common.Sort.{sort}

pub record LogField : Type 0 where
  pub name : Text
  pub display_name : Text

pub data SectionKey : Type 0 where
  pinned_key top_key attributes_key resource_attributes_key : SectionKey

pub record RankedField : Type 0 where
  pub field : LogField
  pub label : Text
  pub count : ℕ

pub record FieldSection : Type 0 where
  pub key : SectionKey
  pub label : Text
  pub fields : List RankedField

-- The sets are the lists of their elements.
pub record BuildFieldSectionsInput : Type 0 where
  pub fields : List LogField
  pub counts : Dict Text ℕ
  pub pinned : List Text
  pub in_use : List Text
  pub opened : List Text
  pub is_otel : Bool
  pub search : Text

-- Its rows in the order of the loop, section by section.
pub record Rows : Type 0 where
  pub pinned : List RankedField
  pub top : List RankedField
  pub attributes : List RankedField
  pub resource_attributes : List RankedField

abbrev dot : ℕ
dot = 46

is_declared_column : Text → Bool
is_declared_column name = not (includes name dot)

-- `isOtelResourceAttr` and `isOtelAttr`
is_otel_resource_attr : Text → Bool
is_otel_resource_attr name = starts_with name (codes "resource_attributes.")

is_otel_attr : Text → Bool
is_otel_attr name = starts_with name (codes "attributes.")

abbrev pub count_of : BuildFieldSectionsInput → LogField → ℕ
unfolding Dict.get
count_of input f = Option.get_or (Dict.get input.counts f.name) 0

pub section_of : BuildFieldSectionsInput → LogField → SectionKey
unfolding is_otel_resource_attr is_otel_attr
section_of input f =
    if includes input.pinned f.name
    then pinned_key
    else if input.is_otel && is_otel_resource_attr f.name
    then resource_attributes_key
    else if input.is_otel && is_otel_attr f.name
    then attributes_key
    else top_key

abbrev pub label_in : SectionKey → LogField → Text
label_in pinned_key f = f.name
label_in top_key f = f.display_name
label_in attributes_key f = f.display_name
label_in resource_attributes_key f = f.display_name

pub push_row : SectionKey → RankedField → Rows → Rows
push_row pinned_key r s = record s { pinned = s.pinned ++ r ∷ [] }
push_row top_key r s = record s { top = s.top ++ r ∷ [] }
push_row attributes_key r s = record s { attributes = s.attributes ++ r ∷ [] }
push_row resource_attributes_key r s = record s {
  resource_attributes = s.resource_attributes ++ r ∷ [];
}

module _ (lower : Text → Text) (tie_before : RankedField → RankedField → Bool) where
  pub is_listed : BuildFieldSectionsInput → LogField → Bool
  unfolding is_declared_column Dict.get
  is_listed input f =
      if is_empty input.search
      then (ltb 0 (count_of input f)
          || is_declared_column f.name
          || includes input.pinned f.name
          || includes input.in_use f.name
          || includes input.opened f.name)
      else contains (lower f.name) input.search || contains (lower f.display_name) input.search

  pub add_rows : BuildFieldSectionsInput → Rows → List LogField → Rows
  unfolding is_listed section_of push_row Dict.get
  add_rows input s [] = s
  add_rows input s (f ∷ fs) =
      let key = section_of input f in
      let row : RankedField = record {
        field = f;
        label = label_in key f;
        count = count_of input f;
      } in
      add_rows input (if is_listed input f then push_row key row s else s) fs

  pub ranks_before : RankedField → RankedField → Bool
  ranks_before a b = ltb b.count a.count || (a.count == b.count && tie_before a b)

  unfoldable pub build_field_sections : BuildFieldSectionsInput → List FieldSection
  unfolding add_rows ranks_before sort
  build_field_sections input =
      let s =
        add_rows input (record { pinned = []; top = []; attributes = []; resource_attributes = [] })
          input.fields in
      record { key = pinned_key; label = codes "Pinned"; fields = sort ranks_before s.pinned }
      ∷ record { key = top_key; label = []; fields = sort ranks_before s.top }
      ∷ record {
        key = attributes_key;
        label = codes "Attributes";
        fields = sort ranks_before s.attributes;
      }
      ∷ record {
        key = resource_attributes_key;
        label = codes "Resource Attributes";
        fields = sort ranks_before s.resource_attributes;
      }
      ∷ []
