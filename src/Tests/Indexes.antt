-- ===== src/Tests/Indexes.antt =====
-- A form of an index that is saved.
use rootprint.Common.{
  ℕ, ◌≤◌, ◌≡◌, refl, Text, codes, text_eq, text_beq, true, false, none, some, [], ◌∷◌, arith, count,
  includes,
}
use rootprint.Http.{ok}
use rootprint.Url.{desc}
use rootprint.Keys.{ApiKeyRow, ApiKeyCache, hit}
use rootprint.Saved.{View}
use rootprint.Indexes.{Tables}
use rootprint.IndexConfig.{
  QuickwitIndexConfig, UpdateQuickwitConfigInput, texts, to_update_index_request,
  update_index_config,
}
use rootprint.IndexConfig.Names.{names, names_of, new_names, update_index_config-names}

abbrev held : QuickwitIndexConfig
held = record {
  version = none;
  index_id = codes "logs";
  index_uri = none;
  doc_mapping = record {
    field_mappings = some (record { name = codes "ts"; settings = [] } ∷ []);
    timestamp_field = some (codes "ts");
    mode = none;
    dynamic_mapping = none;
    partition_key = none;
    max_num_partitions = none;
    store_source = none;
    index_field_presence = none;
    tag_fields = none;
    doc_mapping_uid = some (codes "uid");
    others = [];
  };
  search_settings = none;
  indexing_settings = none;
  retention = none;
  others = [];
}

abbrev form : UpdateQuickwitConfigInput
form = record {
  mode = codes "dynamic";
  dynamic_mapping = none;
  partition_key = none;
  max_num_partitions = none;
  default_search_fields = [];
  tag_fields = codes "host" ∷ [];
  store_source = true;
  index_field_presence = false;
  commit_timeout_secs = some 10;
  retention = none;
  new_field_mappings =
      record {
        name = codes "host";
        settings = (codes "inputFormats", some (texts (codes "rfc3339" ∷ []))) ∷ [];
      }
      ∷ [];
}

abbrev unary : ℕ → Text
unary n = []

names_differ : (x : Text) → count x (names_of held) ≤ 1
unfolding names_of names
names_differ x = ground arith

new_names_differ : (x : Text) → count x (new_names form.new_field_mappings) ≤ 1
unfolding new_names
new_names_differ x = ground arith

is_accepted :
    update_index_config unary held (codes "level" ∷ []) form
    ≡ ok (to_update_index_request held form)
unfolding update_index_config text_beq
is_accepted = refl

update_index_config-names_example :
    ((x : Text) → count x (names_of (to_update_index_request held form)) ≤ 1)
    × ((x : Text)
        → includes (codes "level" ∷ []) x ≡ true
        → count x (new_names form.new_field_mappings) ≡ 0)
update_index_config-names_example =
    update_index_config-names held (codes "level" ∷ []) form unary
      (to_update_index_request held form) tt names_differ new_names_differ is_accepted

abbrev view_of_index : ℕ → Text → View
view_of_index id index_id = record {
  id = id;
  user_id = codes "u1";
  index_id = index_id;
  name = codes "v";
  query = [];
  filters = [];
  sort_direction = desc;
  columns = none;
  time_range = none;
}

abbrev logs_key : ℕ → Text → ApiKeyRow
logs_key id index_id = record {
  id = id;
  name = codes "k";
  token = codes "rp_1";
  index_id = index_id;
  last_used_at = none;
  created_at = 3;
  created_by_user_id = codes "u1";
}

abbrev kept_tables : Tables Text
kept_tables = record {
  settings = [];
  snapshots = codes "logs" ∷ [];
  preferences = [];
  views = view_of_index 1 (codes "logs") ∷ view_of_index 2 (codes "other") ∷ [];
  shares = [];
  api_keys = logs_key 1 (codes "logs") ∷ logs_key 2 (codes "other") ∷ [];
  audits = codes "other" ∷ codes "logs" ∷ [];
}

-- A cache that holds the key of the index.
abbrev kept_cache : ApiKeyCache
kept_cache =
    (codes "rp_1", hit (record { id = 1; name = codes "k"; index_id = codes "logs" }) 60007) ∷ []
