-- ===== src/Indexes.antt =====
-- The indexes with what the program keeps for them: apps/api/src/services/index.service.ts, whose configuration of
-- Quickwit is in IndexConfig. A table is the list of its rows; of the snapshots and the audit only the index of a
-- row matters. `trace_index_id` is that of the configuration.
pub mod Deleted
use rootprint.Common.{
  Text, codes, text_eq, ◌==◌, Bool, true, not, Option, none, some, List, [], ◌∷◌, ◌++◌,
  if◌then◌else◌, is_empty, filter, map, any, includes,
}
use mathlib.Core.Option
use rootprint.Common.Dict
use rootprint.Common.Dict.{Dict}
use rootprint.Http.{Result, ok, fail, raise, not_found, internal, HttpError}
use rootprint.Keys.{ApiKeyRow, ApiKeyCache}
use rootprint.Saved.{View, Share, Preferences, PrefKey}

pub record IndexSettings : Type 0 where
  pub display_name : Option Text
  pub level_field : Text
  pub message_field : Text
  pub traceback_field : Option Text
  pub context_fields : Option (List Text)
  pub trace_id_field : Text

pub record IndexField : Type 0 where
  pub name : Text
  pub kind : Text
  pub fast : Bool
  pub description : Option Text

-- What is read here of the metadata of an index.
pub record QuickwitIndexMetadata : Type 0 where
  pub index_id : Text
  pub timestamp_field : Option Text
  pub fields : List IndexField

pub record IndexMeta : Type 0 where
  pub settings : IndexSettings
  pub index : QuickwitIndexMetadata

abbrev pub default_settings : IndexSettings
default_settings = record {
  display_name = none;
  level_field = codes "severity_text";
  message_field = codes "body.message";
  traceback_field = some (codes "attributes.exception.stacktrace");
  context_fields = none;
  trace_id_field = codes "trace_id";
}

abbrev default_context_fields : List Text
default_context_fields = codes "service_name" ∷ []

-- The input of a save; a field that may be null is optional twice.
pub record SaveIndexConfigInput : Type 0 where
  pub display_name : Option (Option Text)
  pub level_field : Option Text
  pub message_field : Option Text
  pub traceback_field : Option (Option Text)
  pub context_fields : Option (Option (List Text))
  pub trace_id_field : Option Text

-- `{ ...existing, ...fields }`
abbrev pub overlaid : IndexSettings → SaveIndexConfigInput → IndexSettings
overlaid existing fields = record {
  display_name = Option.get_or fields.display_name existing.display_name;
  level_field = Option.get_or fields.level_field existing.level_field;
  message_field = Option.get_or fields.message_field existing.message_field;
  traceback_field = Option.get_or fields.traceback_field existing.traceback_field;
  context_fields = Option.get_or fields.context_fields existing.context_fields;
  trace_id_field = Option.get_or fields.trace_id_field existing.trace_id_field;
}

unfoldable pub get_index_settings : Dict Text IndexSettings → Text → IndexSettings
unfolding Dict.get
get_index_settings rows index_id = Option.get_or (Dict.get rows index_id) default_settings

-- A row that is there already is overlaid, not the settings that the caller read.
unfoldable pub save_index_config :
    Dict Text IndexSettings → Text → IndexSettings → SaveIndexConfigInput → Dict Text IndexSettings
unfolding Dict.get Dict.set
save_index_config rows index_id existing fields =
    Dict.set rows index_id (overlaid (Option.get_or (Dict.get rows index_id) existing) fields)

pub record IndexSummary : Type 0 where
  pub index_id : Text
  pub display_name : Option Text
  pub is_trace_index : Bool

-- What `resolveLogFields` adds to an IndexConfig and to an IndexViewConfig.
pub record LogFields : Type 0 where
  pub level_field : Text
  pub timestamp_field : Text
  pub message_field : Text
  pub traceback_field : Option Text
  pub context_fields : List Text

abbrev resolved : IndexMeta → Text → LogFields
resolved meta timestamp_field = record {
  level_field =
      if any (λ f. f.name == meta.settings.level_field) meta.index.fields
      then meta.settings.level_field
      else [];
  timestamp_field = timestamp_field;
  message_field = meta.settings.message_field;
  traceback_field = meta.settings.traceback_field;
  context_fields = Option.get_or meta.settings.context_fields default_context_fields;
}

abbrev no_timestamp : Text → HttpError
no_timestamp index_id =
    internal (codes "Index \"" ++ (index_id ++ codes "\" has no timestamp_field"))
      (codes "INTERNAL")

pub resolve_log_fields : IndexMeta → Result LogFields
resolve_log_fields meta = elim meta.index.timestamp_field [
  | none ↦ fail (no_timestamp meta.index.index_id)
  | some field ↦
      if is_empty field then fail (no_timestamp meta.index.index_id) else ok (resolved meta field)
]

module _ (trace_index_id : Text) where
  pub to_index_summary : Text → IndexSettings → IndexSummary
  to_index_summary index_id settings = record {
    index_id = index_id;
    display_name = settings.display_name;
    is_trace_index = index_id == trace_index_id;
  }

  pub list_indexes : Dict Text IndexSettings → List QuickwitIndexMetadata → List IndexSummary
  unfolding to_index_summary get_index_settings
  list_indexes rows indexes =
      map (λ m. to_index_summary m.index_id (get_index_settings rows m.index_id)) indexes

  -- `index` is what the search backend has under the name.
  unfoldable pub get_index_config :
      Dict Text IndexSettings → Text → Option QuickwitIndexMetadata → Result LogFields
  unfolding get_index_settings resolve_log_fields
  get_index_config rows index_id index =
      if index_id == trace_index_id
      then fail (not_found (codes "Index not found") (codes "INDEX_NOT_FOUND"))
      else elim index [
        | none ↦ fail (not_found (codes "Index not found") (codes "INDEX_NOT_FOUND"))
        | some m ↦
            resolve_log_fields (record { settings = get_index_settings rows index_id; index = m })
      ]

-- `caps` are the fields that the search backend found in the range, `none` where it has no such answer.
unfoldable pub list_index_fields : List IndexField → Option (List IndexField) → List IndexField
list_index_fields fields none = fields
list_index_fields fields (some caps) =
    map (λ f. if includes (map (λ c. c.name) caps) f.name then record f { fast = true } else f)
      fields
    ++ filter (λ c. not (includes (map (λ f. f.name) fields) c.name)) caps

-- The tables with rows of an index.
pub record Tables (Hit : Type 0) : Type 0 where
  pub settings : Dict Text IndexSettings
  pub snapshots : List Text
  pub preferences : Dict PrefKey Preferences
  pub views : List View
  pub shares : List (Share Hit)
  pub api_keys : List ApiKeyRow
  pub audits : List Text

module _ {Hit : Type 0} where
  pub delete_rows : Text → Tables Hit → Tables Hit
  delete_rows index_id t = record {
    settings = filter (λ r. not (r.0 == index_id)) t.settings;
    snapshots = filter (λ i. not (i == index_id)) t.snapshots;
    preferences = filter (λ r. not (r.0.1 == index_id)) t.preferences;
    views = filter (λ v. not (v.index_id == index_id)) t.views;
    shares = filter (λ s. not (s.index_id == index_id)) t.shares;
    api_keys = filter (λ k. not (k.index_id == index_id)) t.api_keys;
    audits = filter (λ i. not (i == index_id)) t.audits;
  }

  -- `deleted` is the outcome of the search backend's deletion; the cache is that of the keys.
  unfoldable pub delete_index :
      Text
      → Result (Unit {0})
      → Tables Hit × ApiKeyCache
      → Result (Unit {0}) × (Tables Hit × ApiKeyCache)
  unfolding delete_rows
  delete_index index_id (ok deleted) (t, cache) = (ok tt, (delete_rows index_id t, []))
  delete_index index_id (fail e) s = (fail e, s)
  delete_index index_id (raise e) s = (raise e, s)
