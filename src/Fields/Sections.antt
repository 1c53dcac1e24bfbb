-- ===== src/Fields/Sections.antt =====
-- The sections of the field panel: which rows they hold, and in what order.
use rootprint.Common.{
  ℕ, ◌+◌, ◌≡◌, refl, ap, ◌∙◌, inl, inr, Text, text_eq, nat_eq, ◌==◌, Bool, Bool-cases, List, [],
  ◌∷◌, ◌++◌, if◌then◌else◌, map, map-append, filter, count, count-append, arith, All, All-append,
}
use native.Mathlib.Nat.{zero-add}
use rootprint.Common.Sort.{sort, All-sort, Descending, sort-Descending_by, count-sort}
use rootprint.Fields.{
  LogField, SectionKey, pinned_key, top_key, attributes_key, resource_attributes_key, RankedField,
  FieldSection, BuildFieldSectionsInput, Rows, count_of, section_of, label_in, push_row, is_listed,
  add_rows, ranks_before, build_field_sections,
}

abbrev row_names : List RankedField → List Text
row_names rows = map (λ r. r.field.name) rows

-- How many rows of the four lists have this name.
rows_of : Text → Rows → ℕ
rows_of x s =
    count x (row_names s.pinned)
    + count x (row_names s.top)
    + count x (row_names s.attributes)
    + count x (row_names s.resource_attributes)

-- A row of a section stands for a field that belongs there, with its count and its label.
pub record IsRow (input : BuildFieldSectionsInput) (key : SectionKey) (r : RankedField)
    : Type 0 where
  pub belongs : section_of input r.field ≡ key
  pub counted : r.count ≡ count_of input r.field
  pub labelled : r.label ≡ label_in key r.field

abbrev AreRows : BuildFieldSectionsInput → Rows → Type 0
AreRows input s =
    All (IsRow input pinned_key) s.pinned
    × All (IsRow input top_key) s.top
    × All (IsRow input attributes_key) s.attributes
    × All (IsRow input resource_attributes_key) s.resource_attributes

count-pushed :
    (x : Text) (r : RankedField) (l : List RankedField)
    → count x (row_names (l ++ r ∷ []))
      ≡ count x (row_names l) + (if r.field.name == x then 1 else 0)
count-pushed x r l =
    ap (count x) (map-append (λ r. r.field.name) l (r ∷ []))
    ∙ count-append x (row_names l) (row_names (r ∷ []))
    ∙ omega arith

rows_of-push_row :
    (x : Text) (key : SectionKey) (r : RankedField) (s : Rows)
    → rows_of x (push_row key r s) ≡ rows_of x s + (if r.field.name == x then 1 else 0)
unfolding rows_of push_row
rows_of-push_row x pinned_key r s = omega (arith, count-pushed x r s.pinned)
rows_of-push_row x top_key r s = omega (arith, count-pushed x r s.top)
rows_of-push_row x attributes_key r s = omega (arith, count-pushed x r s.attributes)
rows_of-push_row x resource_attributes_key r s =
    omega (arith, count-pushed x r s.resource_attributes)

push_row-AreRows :
    (input : BuildFieldSectionsInput) (key : SectionKey) (r : RankedField) (s : Rows)
    → IsRow input key r
    → AreRows input s
    → AreRows input (push_row key r s)
unfolding push_row
push_row-AreRows input pinned_key r s h (p, t, a, b) =
    (All-append (IsRow input pinned_key) s.pinned (r ∷ []) p (h, tt), t, a, b)
push_row-AreRows input top_key r s h (p, t, a, b) =
    (p, All-append (IsRow input top_key) s.top (r ∷ []) t (h, tt), a, b)
push_row-AreRows input attributes_key r s h (p, t, a, b) =
    (p, t, All-append (IsRow input attributes_key) s.attributes (r ∷ []) a (h, tt), b)
push_row-AreRows input resource_attributes_key r s h (p, t, a, b) = (
  p,
  t,
  a,
  All-append (IsRow input resource_attributes_key) s.resource_attributes (r ∷ []) b (h, tt),
)

pub names : List LogField → List Text
names fields = map (λ f. f.name) fields

-- The names of all the rows, section by section.
pub shown : List FieldSection → List Text
shown [] = []
shown (s ∷ sections) = row_names s.fields ++ shown sections

module _ (lower : Text → Text) (tie_before : RankedField → RankedField → Bool)
    (input : BuildFieldSectionsInput) where
  add_rows-AreRows :
      (fs : List LogField) (s : Rows)
      → AreRows input s
      → AreRows input (add_rows lower tie_before input s fs)
        × ((x : Text)
            → rows_of x (add_rows lower tie_before input s fs)
              ≡ rows_of x s + count x (names (filter (is_listed lower tie_before input) fs)))
  unfolding add_rows names
  add_rows-AreRows [] s h = (h, λ x. omega arith)
  add_rows-AreRows (f ∷ fs) s h = elim (Bool-cases (is_listed lower tie_before input f)) [
    | inl e ↦
        let key = section_of input f in
        let row : RankedField = record {
          field = f;
          label = label_in key f;
          count = count_of input f;
        } in
        let (rows, counts) = add_rows-AreRows fs (push_row key row s) (
          push_row-AreRows input key row s
            (record { belongs = refl; counted = refl; labelled = refl }) h) in
        rw (e, add_rows) (rows, λ x. omega (arith, counts x, rows_of-push_row x key row s))
    | inr e ↦ rw (e, add_rows) (add_rows-AreRows fs s h)
  ]

  abbrev before : RankedField → RankedField → Bool
  before = ranks_before lower tie_before

  sort-rows :
      (key : SectionKey) (rows : List RankedField)
      → All (IsRow input key) rows
      → Descending (λ r. r.count) (sort before rows) × All (IsRow input key) (sort before rows)
  unfolding ranks_before
  sort-rows key rows h = (
    sort-Descending_by (λ r. r.count) before (λ y x e. ground (arith, e))
        (λ y x e. ground (arith, e)) rows,
    All-sort before (IsRow input key) rows h,
  )

  count-sections :
      (x : Text) (p t a b : List RankedField)
      → count x (
          row_names (sort before p)
          ++ (row_names (sort before t)
              ++ (row_names (sort before a) ++ (row_names (sort before b) ++ []))))
        ≡ count x (row_names p)
          + count x (row_names t)
          + count x (row_names a)
          + count x (row_names b)
  count-sections x p t a b =
      let name : RankedField → Text = λ r. r.field.name in
      omega (
        arith,
        count-append x (row_names (sort before p)) (
            row_names (sort before t)
            ++ (row_names (sort before a) ++ (row_names (sort before b) ++ []))),
        count-append x (row_names (sort before t))
            (row_names (sort before a) ++ (row_names (sort before b) ++ [])),
        count-append x (row_names (sort before a)) (row_names (sort before b) ++ []),
        count-append x (row_names (sort before b)) [],
        count-sort name before x p,
        count-sort name before x t,
        count-sort name before x a,
        count-sort name before x b,
      )

  -- The panel: in each section the rows come by falling count, and each stands for a field that belongs to the section,
  -- with its own count; and over all the sections each field that is to be listed has exactly one row, and no other
  -- field has any.
  pub build_field_sections-shown :
      All
        (λ s. Descending (λ r. r.count) s.fields × All (IsRow input s.key) s.fields)
        (build_field_sections lower tie_before input)
      × ((x : Text)
          → count x (shown (build_field_sections lower tie_before input))
            ≡ count x (names (filter (is_listed lower tie_before input) input.fields)))
  unfolding build_field_sections shown rows_of
  build_field_sections-shown =
      let empty : Rows = record {
        pinned = [];
        top = [];
        attributes = [];
        resource_attributes = [];
      } in
      let s = add_rows lower tie_before input empty input.fields in
      let ((p, t, a, b), counts) = add_rows-AreRows input.fields empty (tt, tt, tt, tt) in
      (
        (
          sort-rows pinned_key s.pinned p,
          (
            sort-rows top_key s.top t,
            (
              sort-rows attributes_key s.attributes a,
              (sort-rows resource_attributes_key s.resource_attributes b, tt),
            ),
          ),
        ),
        λ x.
            count-sections x s.pinned s.top s.attributes s.resource_attributes
            ∙ counts x
            ∙ zero-add (count x (names (filter (is_listed lower tie_before input) input.fields))),
      )
