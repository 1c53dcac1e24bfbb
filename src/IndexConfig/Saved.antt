-- ===== src/IndexConfig/Saved.antt =====
-- What an update of an index leaves in its configuration.
use rootprint.Common.{
  ℕ, ◌≡◌, refl, sym, ap, ◌∙◌, inl, inr, Text, text_eq, nat_eq, bool_eq, ◌==◌, ==-sound, ==-refl,
  Bool, true, false, not, ◌||◌, Bool-cases, Option, none, some, List, [], ◌∷◌, ◌++◌, append-nil,
  ap₂, text_beq, if◌then◌else◌, map, includes, all, is_empty, ltb, length, arith,
}
use mathlib.Core.Option
use rootprint.IndexConfig.{
  DocMapping, DynamicMapping, RawDynamicMapping, UpdateQuickwitConfigInput, QuickwitIndexConfig,
  Settings, tokenizers, record_options, dynamic, dynamic_mapping_defaults, same_dynamic_mapping,
  same_string_set, to_comparable_dynamic_mapping, normalize_dynamic_mapping, to_dynamic_mapping,
  to_field_mapping, desired_dynamic_mapping, dynamic_mapping_changed, partitioning_changed,
  doc_changed, written_dynamic, updated_dynamic, updated_doc, request_doc, truthy, is_present,
  non_empty, quickwit_index_config_version, put_setting, to_update_index_request,
}

same_dynamic_mapping_sound : (a b : DynamicMapping) → same_dynamic_mapping a b ≡ true → a ≡ b
unfolding same_dynamic_mapping
same_dynamic_mapping_sound a b h = ground (
  arith,
  ==-sound a.indexed b.indexed,
  ==-sound a.stored b.stored,
  ==-sound a.fast b.fast,
  ==-sound a.tokenizer b.tokenizer,
  ==-sound a.record_option b.record_option,
  ==-sound a.expand_dots b.expand_dots,
)

not-false : (b : Bool) → not b ≡ false → b ≡ true
not-false true h = refl
not-false false h = cc

left-false : (a b : Bool) → (a || b) ≡ false → a ≡ false
left-false true b h = cc
left-false false b h = refl

right-false : (a b : Bool) → (a || b) ≡ false → b ≡ false
right-false true b h = cc
right-false false b h = h

-- The values that the schema of the input lets through.
abbrev pub IsKnown : Option DynamicMapping → Type 0
IsKnown none = Unit
IsKnown (some m) =
    (includes tokenizers m.tokenizer ≡ true) × (includes record_options m.record_option ≡ true)

comparable-written :
    (m : DynamicMapping)
    → IsKnown (some m)
    → Option.get_or
        (to_comparable_dynamic_mapping (written_dynamic (some m)))
        dynamic_mapping_defaults
      ≡ m
unfolding written_dynamic to_comparable_dynamic_mapping to_dynamic_mapping normalize_dynamic_mapping
comparable-written m (t, r) = elim (Bool-cases (same_dynamic_mapping m dynamic_mapping_defaults)) [
  | inl e ↦ rw e (sym (same_dynamic_mapping_sound m dynamic_mapping_defaults e))
  | inr e ↦ rw (e, to_comparable_dynamic_mapping, t, r) refl
]

comparable-desired :
    (o : Option DynamicMapping)
    → IsKnown o
    → Option.get_or (to_comparable_dynamic_mapping (written_dynamic o)) dynamic_mapping_defaults
      ≡ Option.get_or o dynamic_mapping_defaults
unfolding written_dynamic to_comparable_dynamic_mapping
comparable-desired none known = refl
comparable-desired (some m) known = comparable-written m known

desired-IsKnown :
    (input : UpdateQuickwitConfigInput)
    → IsKnown input.dynamic_mapping
    → IsKnown (desired_dynamic_mapping input)
unfolding text_beq
desired-IsKnown input known = elim (Bool-cases (input.mode == dynamic)) [
  | inl e ↦ rw e (given input.dynamic_mapping known)
  | inr e ↦ rw e tt
]
  where
    given :
        (o : Option DynamicMapping)
        → IsKnown o
        → IsKnown (some (Option.get_or o dynamic_mapping_defaults))
    given none known = (refl, refl)
    given (some m) known = known

unchanged-comparable :
    (doc : DocMapping) (input : UpdateQuickwitConfigInput)
    → dynamic_mapping_changed doc input ≡ false
    → Option.get_or (to_comparable_dynamic_mapping doc.dynamic_mapping) dynamic_mapping_defaults
      ≡ Option.get_or (desired_dynamic_mapping input) dynamic_mapping_defaults
unfolding dynamic_mapping_changed
unchanged-comparable doc input h =
    same_dynamic_mapping_sound
      (Option.get_or (to_comparable_dynamic_mapping doc.dynamic_mapping) dynamic_mapping_defaults)
      (Option.get_or (desired_dynamic_mapping input) dynamic_mapping_defaults) (not-false _ h)

-- The dynamic mapping that is read back is the one that was asked for.
comparable-updated :
    (doc : DocMapping) (input : UpdateQuickwitConfigInput)
    → IsKnown input.dynamic_mapping
    → Option.get_or
        (to_comparable_dynamic_mapping (updated_dynamic doc input))
        dynamic_mapping_defaults
      ≡ Option.get_or (desired_dynamic_mapping input) dynamic_mapping_defaults
unfolding updated_dynamic
comparable-updated doc input known =
    elim (Bool-cases (dynamic_mapping_changed doc input || not (input.mode == dynamic))) [
      | inl e ↦
          rw e (comparable-desired (desired_dynamic_mapping input) (desired-IsKnown input known))
      | inr e ↦ rw e (unchanged-comparable doc input (left-false _ _ e))
    ]

put_setting-again :
    {A : Type 0} (s : Option (Settings A)) (v : Option A)
    → put_setting (put_setting s v) v ≡ put_setting s v
unfolding put_setting
put_setting-again none none = refl
put_setting-again none (some a) = refl
put_setting-again (some s) (some a) = refl
put_setting-again (some s) none = elim (Bool-cases (is_empty s.others)) [
  | inl e ↦ rw e refl
  | inr e ↦ rw (e, put_setting, e) refl
]

-- A choice that depends on what stands there, made twice.
chosen-again :
    (old new : Option RawDynamicMapping) (changed : Option RawDynamicMapping → Bool) (b : Bool)
    → let r = if changed old || b then new else old in (if changed r || b then new else r) ≡ r
chosen-again old new changed b = elim (Bool-cases (changed old || b)) [
  | inl e ↦ rw e (elim (Bool-cases (changed new || b)) [ inl f ↦ rw f refl | inr f ↦ rw f refl ])
  | inr e ↦ rw e (rw e refl)
]

abbrev saved_again : UpdateQuickwitConfigInput → UpdateQuickwitConfigInput
saved_again input = record input { new_field_mappings = [] }

updated_doc-again :
    (doc : DocMapping) (input : UpdateQuickwitConfigInput)
    → let doc' = record (updated_doc doc input) { doc_mapping_uid = none } in
      record (updated_doc doc' (saved_again input)) { doc_mapping_uid = none } ≡ doc'
unfolding updated_doc updated_dynamic dynamic_mapping_changed
updated_doc-again doc input =
    ap₂
      (λ d f. record (updated_doc doc input) {
        doc_mapping_uid = none;
        dynamic_mapping = d;
        field_mappings = some f;
      })
      (chosen-again doc.dynamic_mapping (written_dynamic (desired_dynamic_mapping input))
        (λ d. dynamic_mapping_changed (record doc { dynamic_mapping = d }) input)
        (not (input.mode == dynamic)))
      (append-nil (
        Option.get_or doc.field_mappings []
        ++ map (to_field_mapping (Option.get_or doc.timestamp_field [])) input.new_field_mappings))

same_change :
    (doc : DocMapping) (input : UpdateQuickwitConfigInput)
    → doc_changed doc input ≡ false
    → doc_changed (record doc { doc_mapping_uid = none }) (saved_again input) ≡ false
unfolding doc_changed dynamic_mapping_changed partitioning_changed
same_change doc input h = right-false _ _ h

request_doc-again :
    (doc : DocMapping) (input : UpdateQuickwitConfigInput)
    → request_doc (request_doc doc input) (saved_again input) ≡ request_doc doc input
unfolding request_doc
request_doc-again doc input = elim (Bool-cases (doc_changed doc input)) [
  | inl e ↦
      let doc' : DocMapping = record (updated_doc doc input) { doc_mapping_uid = none } in
      rw e (elim (Bool-cases (doc_changed doc' (saved_again input))) [
        | inl f ↦ rw f (updated_doc-again doc input)
        | inr f ↦ rw f refl
      ])
  | inr e ↦ rw (e, same_change doc input e) refl
]

-- The document mapping says what the input asks for, as the program reads it, and keeps what the input does not name.
pub record IsApplied (doc : DocMapping) (input : UpdateQuickwitConfigInput) (doc' : DocMapping)
    : Type 0 where
  pub mode : Option.get_or doc'.mode dynamic ≡ input.mode
  pub store_source : Option.get_or doc'.store_source false ≡ input.store_source
  pub index_field_presence :
      Option.get_or doc'.index_field_presence false ≡ input.index_field_presence
  pub tag_fields : same_string_set (Option.get_or doc'.tag_fields []) input.tag_fields ≡ true
  pub dynamic_mapping :
      Option.get_or (to_comparable_dynamic_mapping doc'.dynamic_mapping) dynamic_mapping_defaults
      ≡ Option.get_or (desired_dynamic_mapping input) dynamic_mapping_defaults
  pub partition_key : Option.get_or doc'.partition_key [] ≡ Option.get_or input.partition_key []
  pub max_num_partitions :
      is_empty (Option.get_or input.partition_key []) ≡ false
      → Option.get_or doc'.max_num_partitions 200 ≡ Option.get_or input.max_num_partitions 200
  pub field_mappings :
      Option.get_or doc'.field_mappings []
      ≡ Option.get_or doc.field_mappings []
        ++ map (to_field_mapping (Option.get_or doc.timestamp_field [])) input.new_field_mappings
  pub timestamp_field : doc'.timestamp_field ≡ doc.timestamp_field
  pub others : doc'.others ≡ doc.others

all-cons :
    (t : Text) (ts us : List Text) → all (includes ts) us ≡ true → all (includes (t ∷ ts)) us ≡ true
all-cons t ts [] h = refl
all-cons t ts (u ∷ us) h = ground (arith, all-cons t ts us)

all_self : (ts : List Text) → all (includes ts) ts ≡ true
all_self [] = refl
all_self (t ∷ ts) = rw (==-refl t, all-cons t ts ts (all_self ts)) refl

get_or-truthy : (o : Option Text) → Option.get_or (truthy o) [] ≡ Option.get_or o []
get_or-truthy none = refl
get_or-truthy (some []) = refl
get_or-truthy (some (c ∷ s)) = refl

kept_partitions :
    (o : Option Text) (n : Option ℕ)
    → is_empty (Option.get_or o []) ≡ false
    → Option.get_or (if is_present (truthy o) then n else none) 200 ≡ Option.get_or n 200
kept_partitions none n h = cc
kept_partitions (some []) n h = cc
kept_partitions (some (c ∷ s)) n h = refl

no_fields {ℓ} : {A B : Type ℓ} (f : A → B) (xs : List A) → ltb 0 (length xs) ≡ false → map f xs ≡ []
no_fields f [] h = refl
no_fields f (x ∷ xs) h = absurd (ground (arith, h))

updated_doc-IsApplied :
    (doc : DocMapping) (input : UpdateQuickwitConfigInput)
    → IsKnown input.dynamic_mapping
    → IsApplied doc input (record (updated_doc doc input) { doc_mapping_uid = none })
unfolding updated_doc same_string_set
updated_doc-IsApplied doc input known = record {
  mode = refl;
  store_source = refl;
  index_field_presence = refl;
  tag_fields = rw (all_self input.tag_fields) refl;
  dynamic_mapping = comparable-updated doc input known;
  partition_key = get_or-truthy input.partition_key;
  max_num_partitions = kept_partitions input.partition_key input.max_num_partitions;
  field_mappings = refl;
  timestamp_field = refl;
  others = refl;
}

unchanged-IsApplied :
    (doc : DocMapping) (input : UpdateQuickwitConfigInput)
    → doc_changed doc input ≡ false
    → IsApplied doc input (record doc { doc_mapping_uid = none })
unfolding doc_changed partitioning_changed
unchanged-IsApplied doc input h = record {
  mode = ground (arith, ==-sound (Option.get_or doc.mode dynamic) input.mode, h);
  store_source =
      ground (arith, ==-sound (Option.get_or doc.store_source false) input.store_source, h);
  index_field_presence = ground (
    arith,
    ==-sound (Option.get_or doc.index_field_presence false) input.index_field_presence,
    h,
  );
  tag_fields = ground (arith, h);
  dynamic_mapping = unchanged-comparable doc input (ground (arith, h));
  partition_key = ground (
    arith,
    ==-sound (Option.get_or doc.partition_key []) (Option.get_or input.partition_key []),
    h,
  );
  max_num_partitions = λ _. ground (arith, h);
  field_mappings =
      sym (append-nil (Option.get_or doc.field_mappings []))
      ∙ ap (λ fs. Option.get_or doc.field_mappings [] ++ fs)
          (sym (
            no_fields (to_field_mapping (Option.get_or doc.timestamp_field []))
              input.new_field_mappings (ground (arith, h))));
  timestamp_field = refl;
  others = refl;
}

pub request_doc-IsApplied :
    (doc : DocMapping) (input : UpdateQuickwitConfigInput)
    → IsKnown input.dynamic_mapping
    → IsApplied doc input (request_doc doc input)
unfolding request_doc
request_doc-IsApplied doc input known = elim (Bool-cases (doc_changed doc input)) [
  | inl e ↦ rw e (updated_doc-IsApplied doc input known)
  | inr e ↦ rw e (unchanged-IsApplied doc input e)
]

version-again :
    (o : Option Text)
    → let v = some (Option.get_or (truthy o) quickwit_index_config_version) in
      some (Option.get_or (truthy v) quickwit_index_config_version) ≡ v
version-again none = refl
version-again (some []) = refl
version-again (some (c ∷ s)) = refl

pub to_update_index_request-again :
    (cfg : QuickwitIndexConfig) (input : UpdateQuickwitConfigInput)
    → to_update_index_request
        (to_update_index_request cfg input)
        (record input { new_field_mappings = [] })
      ≡ to_update_index_request cfg input
unfolding to_update_index_request
to_update_index_request-again cfg input i = record (to_update_index_request cfg input) {
  version = version-again cfg.version i;
  doc_mapping = request_doc-again cfg.doc_mapping input i;
  search_settings = put_setting-again cfg.search_settings (non_empty input.default_search_fields) i;
  indexing_settings = put_setting-again cfg.indexing_settings input.commit_timeout_secs i;
}
