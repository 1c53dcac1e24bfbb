-- ===== src/IndexConfig.antt =====
-- The configuration of an index as Quickwit holds it: apps/api/src/lib/quickwit/index-config.ts. An object is a
-- record of its optional keys; the name of a field stands apart from its other settings, and the keys that the
-- program only hands on are `others`.
pub mod Create
pub mod Saved
pub mod Requested
pub mod Names
use rootprint.Common.{
  ℕ, Text, codes, text_eq, nat_eq, bool_eq, ◌==◌, Bool, true, false, not, ◌&&◌, ◌||◌, Option, none,
  some, List, [], ◌∷◌, ◌++◌, if◌then◌else◌, map, all, includes, is_empty, ltb, length, ◌+◌,
}
use mathlib.Core.Option
use rootprint.Common.Dict
use rootprint.Http.{ApiErrorDetail, Result, ok, fail, conflict}
use rootprint.Common.Dict.{Dict}

pub data Setting : Type 0 where
  flag : Bool → Setting
  text : Text → Setting
  texts : List Text → Setting

pub record FieldMapping : Type 0 where
  pub name : Text
  pub settings : Dict Text Setting

-- `none` where the key is there with `undefined`.
pub record FieldMappingInput : Type 0 where
  pub name : Text
  pub settings : Dict Text (Option Setting)

pub record DynamicMapping : Type 0 where
  pub indexed : Bool
  pub stored : Bool
  pub fast : Bool
  pub tokenizer : Text
  pub record_option : Text
  pub expand_dots : Bool

-- `dynamic_mapping` of Quickwit; an object under `fast` counts as true.
pub record RawDynamicMapping : Type 0 where
  pub indexed : Option Bool
  pub stored : Option Bool
  pub fast : Option Bool
  pub tokenizer : Option Text
  pub record_option : Option Text
  pub expand_dots : Option Bool

pub record DocMapping : Type 0 where
  pub field_mappings : Option (List FieldMapping)
  pub timestamp_field : Option Text
  pub mode : Option Text
  pub dynamic_mapping : Option RawDynamicMapping
  pub partition_key : Option Text
  pub max_num_partitions : Option ℕ
  pub store_source : Option Bool
  pub index_field_presence : Option Bool
  pub tag_fields : Option (List Text)
  pub doc_mapping_uid : Option Text
  pub others : Dict Text Setting

pub record Retention : Type 0 where
  pub period : Text
  pub schedule : Option Text

-- `search_settings` and `indexing_settings`: the one key that the program sets, and the others.
pub record Settings (A : Type 0) : Type 0 where
  pub value : Option A
  pub others : Dict Text Setting

-- QuickwitIndexConfig and CreateIndexRequest.
pub record QuickwitIndexConfig : Type 0 where
  pub version : Option Text
  pub index_id : Text
  pub index_uri : Option Text
  pub doc_mapping : DocMapping
  pub search_settings : Option (Settings (List Text))
  pub indexing_settings : Option (Settings ℕ)
  pub retention : Option Retention
  pub others : Dict Text Setting

pub record UpdateQuickwitConfigInput : Type 0 where
  pub mode : Text
  pub dynamic_mapping : Option DynamicMapping
  pub partition_key : Option Text
  pub max_num_partitions : Option ℕ
  pub default_search_fields : List Text
  pub tag_fields : List Text
  pub store_source : Bool
  pub index_field_presence : Bool
  pub commit_timeout_secs : Option ℕ
  pub retention : Option Retention
  pub new_field_mappings : List FieldMappingInput

abbrev pub quickwit_index_config_version : Text
quickwit_index_config_version = codes "0.9"

abbrev pub dynamic_mapping_defaults : DynamicMapping
dynamic_mapping_defaults = record {
  indexed = true;
  stored = true;
  fast = true;
  tokenizer = codes "raw";
  record_option = codes "basic";
  expand_dots = true;
}

abbrev pub tokenizers : List Text
tokenizers =
    codes "raw"
    ∷ codes "raw_lowercase"
    ∷ codes "default"
    ∷ codes "en_stem"
    ∷ codes "whitespace"
    ∷ codes "chinese_compatible"
    ∷ codes "lowercase"
    ∷ []

abbrev pub record_options : List Text
record_options = codes "basic" ∷ codes "freq" ∷ codes "position" ∷ []

abbrev pub dynamic : Text
dynamic = codes "dynamic"

-- A schedule that is empty is falsy.
pub to_retention : Retention → Retention
to_retention r = elim r.schedule [
  | none ↦ r
  | some s ↦ if is_empty s then record r { schedule = none } else r
]

pub same_dynamic_mapping : DynamicMapping → DynamicMapping → Bool
same_dynamic_mapping a b =
    a.indexed == b.indexed
    && a.stored == b.stored
    && a.fast == b.fast
    && a.tokenizer == b.tokenizer
    && a.record_option == b.record_option
    && a.expand_dots == b.expand_dots

-- `normalizeDynamicMapping` of apps/api/src/services/quickwit-index.service.ts
pub normalize_dynamic_mapping : RawDynamicMapping → DynamicMapping
normalize_dynamic_mapping dm = record {
  indexed = Option.get_or dm.indexed true;
  stored = Option.get_or dm.stored true;
  fast = Option.get_or dm.fast true;
  tokenizer = Option.get_or dm.tokenizer (codes "raw");
  record_option = Option.get_or dm.record_option (codes "basic");
  expand_dots = Option.get_or dm.expand_dots true;
}

abbrev known_or : List Text → Text → Text → Text
known_or known fallback t = if includes known t then t else fallback

pub to_comparable_dynamic_mapping : Option RawDynamicMapping → Option DynamicMapping
unfolding normalize_dynamic_mapping
to_comparable_dynamic_mapping none = none
to_comparable_dynamic_mapping (some dm) =
    let n = normalize_dynamic_mapping dm in
    some (record n {
      tokenizer = known_or tokenizers (codes "raw") n.tokenizer;
      record_option = known_or record_options (codes "basic") n.record_option;
    })

pub to_dynamic_mapping : DynamicMapping → RawDynamicMapping
to_dynamic_mapping dm = record {
  indexed = some dm.indexed;
  stored = some dm.stored;
  fast = some dm.fast;
  tokenizer = some dm.tokenizer;
  record_option = some dm.record_option;
  expand_dots = some dm.expand_dots;
}

abbrev field_key_rename : Dict Text Text
field_key_rename =
    (codes "inputFormats", codes "input_formats")
    ∷ (codes "outputFormat", codes "output_format")
    ∷ (codes "fastPrecision", codes "fast_precision")
    ∷ (codes "expandDots", codes "expand_dots")
    ∷ []

rename_settings : Dict Text Setting → Dict Text (Option Setting) → Dict Text Setting
unfolding Dict.get Dict.set
rename_settings fm [] = fm
rename_settings fm ((key, none) ∷ entries) = rename_settings fm entries
rename_settings fm ((key, some value) ∷ entries) =
    rename_settings (Dict.set fm (Option.get_or (Dict.get field_key_rename key) key) value) entries

pub to_field_mapping : Text → FieldMappingInput → FieldMapping
unfolding rename_settings Dict.set
to_field_mapping timestamp_field input =
    let fm = rename_settings [] input.settings in
    record {
      name = input.name;
      settings =
          if input.name == timestamp_field then Dict.set fm (codes "fast") (flag true) else fm;
    }

pub same_string_set : List Text → List Text → Bool
same_string_set a b = all (includes b) a && all (includes a) b

abbrev pub truthy : Option Text → Option Text
truthy none = none
truthy (some s) = if is_empty s then none else some s

abbrev pub is_present : Option Text → Bool
is_present none = false
is_present (some s) = true

abbrev pub desired_dynamic_mapping : UpdateQuickwitConfigInput → Option DynamicMapping
desired_dynamic_mapping input =
    if input.mode == dynamic
    then some (Option.get_or input.dynamic_mapping dynamic_mapping_defaults)
    else none

pub dynamic_mapping_changed : DocMapping → UpdateQuickwitConfigInput → Bool
unfolding same_dynamic_mapping to_comparable_dynamic_mapping
dynamic_mapping_changed doc input = not (
    same_dynamic_mapping
      (Option.get_or (to_comparable_dynamic_mapping doc.dynamic_mapping) dynamic_mapping_defaults)
      (Option.get_or (desired_dynamic_mapping input) dynamic_mapping_defaults))

pub partitioning_changed : DocMapping → UpdateQuickwitConfigInput → Bool
partitioning_changed doc input =
    not (Option.get_or doc.partition_key [] == Option.get_or input.partition_key [])
    || not (Option.get_or doc.max_num_partitions 200 == Option.get_or input.max_num_partitions 200)

pub doc_changed : DocMapping → UpdateQuickwitConfigInput → Bool
unfolding dynamic_mapping_changed partitioning_changed same_string_set
doc_changed doc input =
    ltb 0 (length input.new_field_mappings)
    || (dynamic_mapping_changed doc input
        || partitioning_changed doc input
        || not (Option.get_or doc.mode dynamic == input.mode)
        || not (Option.get_or doc.store_source false == input.store_source)
        || not (Option.get_or doc.index_field_presence false == input.index_field_presence)
        || not (same_string_set (Option.get_or doc.tag_fields []) input.tag_fields))

-- A mapping that differs from the defaults is written out.
pub written_dynamic : Option DynamicMapping → Option RawDynamicMapping
unfolding same_dynamic_mapping to_dynamic_mapping
written_dynamic none = none
written_dynamic (some desired) =
    if same_dynamic_mapping desired dynamic_mapping_defaults
    then none
    else some (to_dynamic_mapping desired)

pub updated_dynamic : DocMapping → UpdateQuickwitConfigInput → Option RawDynamicMapping
unfolding dynamic_mapping_changed written_dynamic
updated_dynamic doc input =
    if dynamic_mapping_changed doc input || not (input.mode == dynamic)
    then written_dynamic (desired_dynamic_mapping input)
    else doc.dynamic_mapping

pub updated_doc : DocMapping → UpdateQuickwitConfigInput → DocMapping
unfolding updated_dynamic to_field_mapping
updated_doc doc input = record doc {
  mode = some input.mode;
  store_source = some input.store_source;
  index_field_presence = some input.index_field_presence;
  tag_fields = some input.tag_fields;
  field_mappings = some (
      Option.get_or doc.field_mappings []
      ++ map (to_field_mapping (Option.get_or doc.timestamp_field [])) input.new_field_mappings);
  dynamic_mapping = updated_dynamic doc input;
  partition_key = truthy input.partition_key;
  max_num_partitions =
      if is_present (truthy input.partition_key) then input.max_num_partitions else none;
}

pub request_doc : DocMapping → UpdateQuickwitConfigInput → DocMapping
unfolding doc_changed updated_doc
request_doc doc input = record (if doc_changed doc input then updated_doc doc input else doc) {
  doc_mapping_uid = none;
}

-- `{ ...settings }` with its one key set or deleted; an object without keys is left out.
pub put_setting : {A : Type 0} → Option (Settings A) → Option A → Option (Settings A)
put_setting none none = none
put_setting none (some a) = some (record { value = some a; others = [] })
put_setting (some s) (some a) = some (record s { value = some a })
put_setting (some s) none = if is_empty s.others then none else some (record s { value = none })

abbrev pub non_empty : List Text → Option (List Text)
non_empty ts = if ltb 0 (length ts) then some ts else none

pub to_update_index_request : QuickwitIndexConfig → UpdateQuickwitConfigInput → QuickwitIndexConfig
unfolding request_doc put_setting to_retention
to_update_index_request cfg input = record cfg {
  version = some (Option.get_or (truthy cfg.version) quickwit_index_config_version);
  doc_mapping = request_doc cfg.doc_mapping input;
  search_settings = put_setting cfg.search_settings (non_empty input.default_search_fields);
  indexing_settings = put_setting cfg.indexing_settings input.commit_timeout_secs;
  retention = Option.map to_retention input.retention;
}

-- The positions of the new fields whose names are taken.
pub positions_from : (Text → Bool) → ℕ → List FieldMappingInput → List ℕ
positions_from taken i [] = []
positions_from taken i (f ∷ fs) =
    let rest = positions_from taken (i + 1) fs in if taken f.name then i ∷ rest else rest

pub find_field_collisions : QuickwitIndexConfig → List Text → List FieldMappingInput → List ℕ
unfolding positions_from
find_field_collisions cfg existing_fields new_fields =
    let names =
      map (λ f. f.name) (Option.get_or cfg.doc_mapping.field_mappings []) ++ existing_fields in
    positions_from (includes names) 0 new_fields

abbrev name_taken : (ℕ → Text) → ℕ → ApiErrorDetail
name_taken digits i = record {
  path = codes "newFieldMappings." ++ (digits i ++ codes ".name");
  message = codes "A field with this name already exists.";
}

-- `updateIndexConfig` of apps/api/src/services/index.service.ts: the request that is sent to Quickwit, or the
-- error; `digits` writes a position.
unfoldable pub update_index_config :
    (ℕ → Text)
    → QuickwitIndexConfig
    → List Text
    → UpdateQuickwitConfigInput
    → Result QuickwitIndexConfig
unfolding find_field_collisions to_update_index_request
update_index_config digits cfg existing_fields input =
    let collisions = find_field_collisions cfg existing_fields input.new_field_mappings in
    if ltb 0 (length collisions)
    then fail (
        conflict (codes "A field with this name already exists.") (codes "FIELD_EXISTS")
          (map (name_taken digits) collisions))
    else ok (to_update_index_request cfg input)
