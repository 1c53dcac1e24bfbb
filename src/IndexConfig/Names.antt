-- ===== src/IndexConfig/Names.antt =====
-- The names of the fields of an index.
use rootprint.Common.{
  ℕ, ◌+◌, ◌≤◌, ◌≡◌, refl, ap, ◌∙◌, inl, inr, Text, text_eq, ◌==◌, ==-sound, true, false, Bool-cases,
  List, [], ◌∷◌, ◌++◌, map, map-append, includes, any-append, count, count-append, ltb, length,
  arith, subst,
}
use mathlib.Core.Option
use rootprint.Http.{HttpError, ok, fail}
use rootprint.IndexConfig.{
  FieldMapping, FieldMappingInput, UpdateQuickwitConfigInput, QuickwitIndexConfig, to_field_mapping,
  positions_from, find_field_collisions, to_update_index_request, update_index_config,
}
use rootprint.IndexConfig.Saved.{IsKnown}
use rootprint.IndexConfig.Requested.{to_update_index_request-IsRequested}

unfoldable pub names : List FieldMapping → List Text
names fields = map (λ f. f.name) fields

unfoldable pub new_names : List FieldMappingInput → List Text
new_names fields = map (λ f. f.name) fields

unfoldable pub names_of : QuickwitIndexConfig → List Text
unfolding names
names_of cfg = names (Option.get_or cfg.doc_mapping.field_mappings [])

names-new :
    (ts : Text) (fields : List FieldMappingInput)
    → names (map (to_field_mapping ts) fields) ≡ new_names fields
unfolding names new_names to_field_mapping
names-new ts [] = refl
names-new ts (f ∷ fields) = ap (λ ns. f.name ∷ ns) (names-new ts fields)

count-positions :
    (taken : List Text) (i : ℕ) (fields : List FieldMappingInput) (x : Text)
    → length (positions_from (includes taken) i fields) ≡ 0
    → includes taken x ≡ true
    → count x (new_names fields) ≡ 0
unfolding positions_from new_names
count-positions taken i [] x h k = refl
count-positions taken i (f ∷ fields) x h k = elim (Bool-cases (includes taken f.name)) [
  | inl e ↦ absurd (ground (arith, rw e at h))
  | inr e ↦ ground (arith, count-positions taken (i + 1) fields x (rw e at h) k, ==-sound f.name x)
]

count-includes : (ts : List Text) (x : Text) → includes ts x ≡ false → count x ts ≡ 0
count-includes [] x h = refl
count-includes (t ∷ ts) x h = ground (arith, count-includes ts x)

module _ (cfg : QuickwitIndexConfig) (existing_fields : List Text)
    (input : UpdateQuickwitConfigInput) where
  abbrev old_names : List Text
  old_names = map (λ f. f.name) (Option.get_or cfg.doc_mapping.field_mappings [])

  count-names_of :
      IsKnown input.dynamic_mapping
      → (x : Text)
      → count x (names_of (to_update_index_request cfg input))
        ≡ count x old_names + count x (new_names input.new_field_mappings)
  unfolding names_of names
  count-names_of known x =
      let ts = Option.get_or cfg.doc_mapping.timestamp_field [] in
      let old = Option.get_or cfg.doc_mapping.field_mappings [] in
      let added = map (to_field_mapping ts) input.new_field_mappings in
      ap (λ fs. count x (names fs))
        (to_update_index_request-IsRequested cfg input known).0.doc_mapping.field_mappings
      ∙ ap (count x) (map-append (λ f. f.name) old added)
      ∙ count-append x (names old) (names added)
      ∙ ap (λ ns. count x (names old) + count x ns) (names-new ts input.new_field_mappings)

  apart :
      ltb 0 (length (find_field_collisions cfg existing_fields input.new_field_mappings)) ≡ false
      → (x : Text) → includes (old_names ++ existing_fields) x ≡ true
      → count x (new_names input.new_field_mappings) ≡ 0
  unfolding find_field_collisions
  apart e x k =
      count-positions (old_names ++ existing_fields) 0 input.new_field_mappings x
        (ground (arith, e)) k

  -- An update that is not refused leaves an index whose fields all have different names, if the fields of before and the
  -- new ones had, each among themselves; and no new field has the name of one that the index is known to have.
  pub update_index_config-names :
      (digits : ℕ → Text) (request : QuickwitIndexConfig)
      → IsKnown input.dynamic_mapping
      → ((x : Text) → count x (names_of cfg) ≤ 1)
      → ((x : Text) → count x (new_names input.new_field_mappings) ≤ 1)
      → update_index_config digits cfg existing_fields input ≡ ok request
      → ((x : Text) → count x (names_of request) ≤ 1)
        × ((x : Text)
            → includes existing_fields x ≡ true
            → count x (new_names input.new_field_mappings) ≡ 0)
  unfolding update_index_config names_of names
  update_index_config-names digits request known old new h =
      elim (Bool-cases
        (ltb 0 (length (find_field_collisions cfg existing_fields input.new_field_mappings)))) [
          | inl e ↦ absurd (refused (rw e at h))
          | inr e ↦
              let same : to_update_index_request cfg input ≡ request = cc (rw e at h) in
              (
                λ x.
                    subst (λ r. count x (names_of r) ≤ 1) same
                      (elim (Bool-cases (includes (old_names ++ existing_fields) x)) [
                        | inl k ↦ omega (arith, count-names_of known x, apart e x k, old x)
                        | inr k ↦
                            let fresh = count-includes old_names x (
                              ground
                                (arith, any-append (λ n. n == x) old_names existing_fields, k)) in
                            omega (arith, count-names_of known x, fresh, new x)
                      ]),
                λ x k.
                    apart e x
                      (ground (arith, any-append (λ n. n == x) old_names existing_fields, k)),
              )
        ]
    where
      refused : {e : HttpError} → fail e ≡ ok request → ⊥
      refused h = cc
