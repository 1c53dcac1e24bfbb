-- ===== src/Sources.antt =====
-- The ingest sources of an index, apps/api/src/services/index-source.service.ts: what is sent to Quickwit
-- and what is shown of it. The objects are of JSON, so they have no keys but their own.
pub mod Secrets
use rootprint.Common.{
  ℕ, zero, suc, Text, codes, text_eq, ◌==◌, Bool, true, false, not, ◌||◌, ltb, Option, none, some,
  List, [], ◌∷◌, if◌then◌else◌, is_empty, any, length, map, contains, to_lower_ascii,
}
use mathlib.Core.Option
use rootprint.Common.Dict
use rootprint.Common.Dict.{Dict}

-- A value of `client_params`: a string, or another value by its JSON.
pub data Setting : Type 0 where
  string : Text → Setting
  other : (json : Text) → Setting

-- `none` where the field is no string.
pub record Notification : Type 0 where
  pub kind : Option Text
  pub queue_url : Option Text
  pub message_type : Option Text

-- A value of `params`.
pub data Param : Type 0 where
  text : Text → Param
  boolean : Bool → Param
  settings : Dict Text Setting → Param
  notifications : List Notification → Param
  unread : (json : Text) → Param

abbrev pub Params : Type 0
Params = Dict Text Param

pub data SourceInput : Type 0 where
  kinesis : (stream_name : Text) → (region endpoint : Option Text) → SourceInput
  file : (queue_url message_type : Text) → SourceInput
  kafka :
      (topic : Text)
      → (client_log_level : Option Text) → (client_params : Option (Dict Text Setting))
      → (enable_backfill_mode : Option Bool) → SourceInput

pub record UpdateSourceInput : Type 0 where
  pub input_format : Option Text
  pub num_pipelines : Option ℕ
  pub vrl_script : Option Text
  pub source : SourceInput

pub record SourceConfig : Type 0 where
  pub version : Text
  pub source_id : Text
  pub source_type : Text
  pub enabled : Option Bool
  pub input_format : Option Text
  pub num_pipelines : Option ℕ
  pub transform : Option (Dict Text Text)
  pub params : Option Params

pub record SourceDetail : Type 0 where
  pub source_id : Text
  pub source_type : Text
  pub enabled : Bool
  pub input_format : Option Text
  pub num_pipelines : Option ℕ
  pub stream_name : Option Text
  pub region : Option Text
  pub endpoint : Option Text
  pub queue_url : Option Text
  pub message_type : Option Text
  pub topic : Option Text
  pub client_log_level : Option Text
  pub client_params : Option (Dict Text Setting)
  pub enable_backfill_mode : Option Bool
  pub vrl_script : Option Text
  pub has_unsupported_config : Bool

-- Six bullets.
abbrev pub secret_mask : Text
secret_mask = 0x2022 ∷ 0x2022 ∷ 0x2022 ∷ 0x2022 ∷ 0x2022 ∷ 0x2022 ∷ []

-- `/password|secret/i`
unfoldable pub is_secret_key : Text → Bool
unfolding contains to_lower_ascii
is_secret_key key =
    contains (to_lower_ascii key) (codes "password")
    || contains (to_lower_ascii key) (codes "secret")

abbrev pub is_mask : Setting → Bool
is_mask (string t) = t == secret_mask
is_mask (other json) = false

abbrev pub shown_setting : Text → Setting → Setting
shown_setting key value = if is_secret_key key then string secret_mask else value

-- The entries are copied to an object without any, so each keeps its place.
unfoldable pub redact_secrets : Dict Text Setting → Dict Text Setting
unfolding is_secret_key
redact_secrets [] = []
redact_secrets ((key, value) ∷ params) = (key, shown_setting key value) ∷ redact_secrets params

abbrev pub put_stored : Option Setting → Text → Dict Text Setting → Dict Text Setting
put_stored none key out = out
put_stored (some v) key out = (key, v) ∷ out

unfoldable pub restore_secrets : Dict Text Setting → Dict Text Setting → Dict Text Setting
unfolding Dict.get
restore_secrets [] stored = []
restore_secrets ((key, value) ∷ incoming) stored =
    let rest = restore_secrets incoming stored in
    if is_mask value then put_stored (Dict.get stored key) key rest else (key, value) ∷ rest

-- A string that is not empty; an empty one is falsy.
abbrev pub given : Option Text → Option Text
given none = none
given (some t) = if is_empty t then none else some t

abbrev pub put_given : Option Text → Text → Params → Params
put_given none key params = params
put_given (some t) key params = Dict.set params key (text t)

abbrev pub settings_in : Option Param → Option (Dict Text Setting)
settings_in (some (settings s)) = some s
settings_in _ = none

-- `current` is there for an update.
abbrev pub client_params_of :
    Option Params → Option (Dict Text Setting) → Option (Dict Text Setting)
client_params_of current none = none
client_params_of none (some incoming) = some incoming
client_params_of (some current) (some incoming) = some (
    restore_secrets incoming
      (Option.get_or (settings_in (Dict.get current (codes "client_params"))) []))

abbrev pub put_settings : Option (Dict Text Setting) → Params → Params
put_settings none params = params
put_settings (some s) params = Dict.set params (codes "client_params") (settings s)

unfoldable pub build_source_params : SourceInput → Option Params → Params
unfolding Dict.set Dict.get restore_secrets
build_source_params (kinesis stream_name region endpoint) current =
    put_given (given endpoint) (codes "endpoint") (
      put_given (given region) (codes "region")
        (Dict.set (Option.get_or current []) (codes "stream_name") (text stream_name)))
build_source_params (file queue_url message_type) current =
    Dict.set (Option.get_or current []) (codes "notifications") (
      notifications (
        record {
          kind = some (codes "sqs");
          queue_url = some queue_url;
          message_type = some message_type;
        }
        ∷ []))
build_source_params (kafka topic log_level client_params backfill) current =
    Dict.set
      (put_settings (client_params_of current client_params)
        (put_given (given log_level) (codes "client_log_level") ((codes "topic", text topic) ∷ [])))
      (codes "enable_backfill_mode") (boolean (Option.get_or backfill false))

abbrev type_of : SourceInput → Text
type_of (kinesis _ _ _) = codes "kinesis"
type_of (file _ _) = codes "file"
type_of (kafka _ _ _ _) = codes "kafka"

abbrev positive : Option ℕ → Option ℕ
positive none = none
positive (some zero) = none
positive (some (suc n)) = some (suc n)

abbrev transform_of : Option SourceConfig → Option Text → Option (Dict Text Text)
transform_of current none = none
transform_of none (some script) = some ((codes "script", script) ∷ [])
transform_of (some c) (some script) =
    some (Dict.set (Option.get_or c.transform []) (codes "script") script)

-- For a new source there is no `enabled`; the other fields of a stored one are not touched.
unfoldable pub to_source_config_request :
    Text → UpdateSourceInput → Option SourceConfig → SourceConfig
unfolding build_source_params Dict.set
to_source_config_request source_id input current = record {
  version = codes "0.9";
  source_id = source_id;
  source_type = type_of input.source;
  enabled = Option.map (λ c. Option.get_or c.enabled true) current;
  input_format = given input.input_format;
  num_pipelines = positive input.num_pipelines;
  transform = transform_of current (given input.vrl_script);
  params =
      some (build_source_params input.source (Option.map (λ c. Option.get_or c.params []) current));
}

abbrev text_in : Option Param → Option Text
text_in (some (text t)) = some t
text_in _ = none

abbrev boolean_in : Option Param → Option Bool
boolean_in (some (boolean b)) = some b
boolean_in _ = none

abbrev notifications_in : Option Param → List Notification
notifications_in (some (notifications ns)) = ns
notifications_in _ = []

abbrev first_queue : List Notification → Option Text
first_queue [] = none
first_queue (n ∷ ns) = n.queue_url

abbrev first_message_type : List Notification → Option Text
first_message_type [] = none
first_message_type (n ∷ ns) = n.message_type

abbrev is_sqs : Notification → Bool
is_sqs n = elim n.kind [ none ↦ false | some k ↦ k == codes "sqs" ]

-- A source as `projectSource` reads it from the index: absent values are `none` there.
unfoldable pub project_source : SourceConfig → SourceDetail
unfolding Dict.get redact_secrets
project_source source =
    let params = Option.get_or source.params [] in
    let ns = notifications_in (Dict.get params (codes "notifications")) in
    record {
      source_id = source.source_id;
      source_type = source.source_type;
      enabled = Option.get_or source.enabled true;
      input_format = source.input_format;
      num_pipelines = source.num_pipelines;
      stream_name = text_in (Dict.get params (codes "stream_name"));
      region = text_in (Dict.get params (codes "region"));
      endpoint = text_in (Dict.get params (codes "endpoint"));
      queue_url = first_queue ns;
      message_type = first_message_type ns;
      topic = text_in (Dict.get params (codes "topic"));
      client_log_level = text_in (Dict.get params (codes "client_log_level"));
      client_params =
          Option.map redact_secrets (settings_in (Dict.get params (codes "client_params")));
      enable_backfill_mode = boolean_in (Dict.get params (codes "enable_backfill_mode"));
      vrl_script = elim source.transform [ none ↦ none | some t ↦ Dict.get t (codes "script") ];
      has_unsupported_config = ltb 1 (length ns) || any (λ n. not (is_sqs n)) ns;
    }
