-- ===== src/IndexConfig/Create.antt =====
-- The request that creates an index.
use rootprint.Common.{
  ℕ, Text, text_eq, nat_eq, bool_eq, ◌==◌, Bool, Option, none, some, List, [], if◌then◌else◌, map,
}
use mathlib.Core.Option
use rootprint.IndexConfig.{
  FieldMappingInput, DynamicMapping, RawDynamicMapping, Retention, Settings, QuickwitIndexConfig,
  quickwit_index_config_version, dynamic, to_retention, to_dynamic_mapping, to_field_mapping,
  truthy, is_present,
}

pub record CreateIndexInput : Type 0 where
  pub index_id : Text
  pub timestamp_field : Text
  pub field_mappings : List FieldMappingInput
  pub mode : Option Text
  pub dynamic_mapping : Option DynamicMapping
  pub partition_key : Option Text
  pub max_num_partitions : Option ℕ
  pub store_source : Option Bool
  pub index_field_presence : Option Bool
  pub tag_fields : Option (List Text)
  pub index_uri : Option Text
  pub commit_timeout_secs : Option ℕ
  pub default_search_fields : Option (List Text)
  pub retention : Option Retention

abbrev settings_of : {A : Type 0} → Option A → Option (Settings A)
settings_of none = none
settings_of (some a) = some (record { value = some a; others = [] })

abbrev create_dynamic : CreateIndexInput → Option RawDynamicMapping
unfolding to_dynamic_mapping
create_dynamic input =
    if Option.get_or (truthy input.mode) dynamic == dynamic
    then Option.map to_dynamic_mapping input.dynamic_mapping
    else none

-- The modes are not empty, so `input.mode ?? 'dynamic'` is read like `input.mode`.
pub to_create_index_request : CreateIndexInput → QuickwitIndexConfig
unfolding to_field_mapping to_dynamic_mapping to_retention
to_create_index_request input = record {
  version = some quickwit_index_config_version;
  index_id = input.index_id;
  index_uri = truthy input.index_uri;
  doc_mapping = record {
    field_mappings = some (map (to_field_mapping input.timestamp_field) input.field_mappings);
    timestamp_field = some input.timestamp_field;
    mode = truthy input.mode;
    dynamic_mapping = create_dynamic input;
    partition_key = truthy input.partition_key;
    max_num_partitions =
        if is_present (truthy input.partition_key) then input.max_num_partitions else none;
    store_source = input.store_source;
    index_field_presence = input.index_field_presence;
    tag_fields = input.tag_fields;
    doc_mapping_uid = none;
    others = [];
  };
  search_settings = settings_of input.default_search_fields;
  indexing_settings = settings_of input.commit_timeout_secs;
  retention = Option.map to_retention input.retention;
  others = [];
}
