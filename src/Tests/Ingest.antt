-- ===== src/Tests/Ingest.antt =====
-- A Kafka source with a password, shown and edited.
use rootprint.Common.{
  ◌≡◌, refl, Text, codes, text_eq, text_beq, ◌==◌, true, none, some, [], ◌∷◌, if◌then◌else◌,
}
use mathlib.Core.Option
use rootprint.Common.Dict
use rootprint.Common.Dict.{Dict}
use rootprint.Sources.{
  Setting, string, settings, kafka, kinesis, SourceConfig, UpdateSourceInput, secret_mask,
  is_secret_key, project_source, to_source_config_request,
}
use rootprint.Sources.Secrets.{sent_params, project_source-update}

abbrev kept : Dict Text Setting
kept = (codes "sasl.password", string (codes "hush")) ∷ (codes "group.id", string (codes "a")) ∷ []

abbrev kafka_source : SourceConfig
kafka_source = record {
  version = codes "0.8";
  source_id = codes "logs-in";
  source_type = codes "kafka";
  enabled = none;
  input_format = none;
  num_pipelines = none;
  transform = none;
  params = some ((codes "client_params", settings kept) ∷ []);
}

abbrev nothing_else : UpdateSourceInput
nothing_else = record {
  input_format = none;
  num_pipelines = none;
  vrl_script = none;
  source = kinesis (codes "s") none none;
}

stored_test :
    (project_source kafka_source).client_params
    ≡ some
        ((codes "sasl.password", string secret_mask) ∷ (codes "group.id", string (codes "a")) ∷ [])
unfolding project_source text_beq
stored_test = refl

project_source-update_example :
    (shown : Dict Text Setting) × ((project_source kafka_source).client_params ≡ some shown)
    × ((j : Text)
        → is_secret_key j ≡ true
        → Dict.get shown j ≡ Option.map (λ _. string secret_mask) (Dict.get kept j))
    × ((e : Dict Text Setting) × (sent_params (
            to_source_config_request
              (codes "logs-in")
              (record nothing_else {
                source =
                    kafka
                      (codes "t")
                      none
                      (some (Dict.set shown (codes "group.id") (string (codes "b"))))
                      none;
              })
              (some kafka_source))
          ≡ some e)
        × ((j : Text)
            → Dict.get e j
              ≡ (if codes "group.id" == j then some (string (codes "b")) else Dict.get kept j)))
unfolding Dict.get text_beq
project_source-update_example =
    project_source-update (codes "logs-in") kafka_source kept refl (refl, (refl, tt)) nothing_else
      (codes "t") none none (codes "group.id") (string (codes "b")) refl
