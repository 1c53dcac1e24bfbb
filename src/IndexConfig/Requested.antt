-- ===== src/IndexConfig/Requested.antt =====
-- What an update of an index asks Quickwit for.
use rootprint.Common.{
  ◌≡◌, refl, ap, ◌∙◌, inl, inr, Text, text_eq, true, Bool-cases, Option, none, some, Option-cases,
  List, [], ◌∷◌, is_empty, arith,
}
use mathlib.Core.Option
use rootprint.Common.Dict.{Dict}
use rootprint.IndexConfig.{
  Setting, Retention, Settings, UpdateQuickwitConfigInput, QuickwitIndexConfig, to_retention,
  truthy, non_empty, put_setting, to_update_index_request,
}
use rootprint.IndexConfig.Saved.{
  IsKnown, IsApplied, request_doc-IsApplied, to_update_index_request-again,
}

abbrev pub value_of : {A : Type 0} → Option (Settings A) → Option A
value_of none = none
value_of (some s) = s.value

abbrev pub others_of : {A : Type 0} → Option (Settings A) → Dict Text Setting
others_of none = []
others_of (some s) = s.others

value_of-put_setting :
    {A : Type 0} (s : Option (Settings A)) (v : Option A) → value_of (put_setting s v) ≡ v
unfolding put_setting
value_of-put_setting none none = refl
value_of-put_setting none (some a) = refl
value_of-put_setting (some s) (some a) = refl
value_of-put_setting (some s) none = elim (Bool-cases (is_empty s.others)) [
  | inl e ↦ rw e refl
  | inr e ↦ rw e refl
]

others_of-put_setting :
    {A : Type 0} (s : Option (Settings A)) (v : Option A)
    → others_of (put_setting s v) ≡ others_of s
unfolding put_setting
others_of-put_setting none none = refl
others_of-put_setting none (some a) = refl
others_of-put_setting (some s) (some a) = refl
others_of-put_setting (some s) none = elim (Bool-cases (is_empty s.others)) [
  | inl e ↦ rw e (no_others s.others e)
  | inr e ↦ rw e refl
]
  where
    no_others : (d : Dict Text Setting) → is_empty d ≡ true → [] ≡ d
    no_others [] h = refl
    no_others (x ∷ d) h = cc

get_or-non_empty : (ts : List Text) → Option.get_or (non_empty ts) [] ≡ ts
get_or-non_empty [] = refl
get_or-non_empty (t ∷ ts) = ground arith

abbrev pub as_asked : Retention → Retention
as_asked r = record r { schedule = truthy r.schedule }

as_asked-to_retention :
    (o : Option Retention) → Option.map as_asked (Option.map to_retention o) ≡ Option.map as_asked o
unfolding to_retention
as_asked-to_retention none = refl
as_asked-to_retention (some r) = elim (Option-cases r.schedule) [
  | inl e ↦ rw (e, to_retention) (ap (λ o. some (record r { schedule = truthy o })) e)
  | inr (s, e) ↦ elim (Bool-cases (is_empty s)) [
    | inl f ↦ rw (e, to_retention, f) refl
    | inr f ↦
        let given : truthy r.schedule ≡ some s = ap truthy e ∙ rw f refl in
        rw (e, to_retention, f) (ap (λ o. some (record r { schedule = o })) given)
  ]
]

-- The request says what the form says, setting by setting, and keeps the rest of the configuration. A list of default
-- fields that is left out is empty, and so is a schedule.
pub record IsRequested (cfg : QuickwitIndexConfig) (input : UpdateQuickwitConfigInput)
    (request : QuickwitIndexConfig) : Type 0 where
  pub doc_mapping : IsApplied cfg.doc_mapping input request.doc_mapping
  pub default_search_fields :
      Option.get_or (value_of request.search_settings) [] ≡ input.default_search_fields
  pub commit_timeout_secs : value_of request.indexing_settings ≡ input.commit_timeout_secs
  pub retention : Option.map as_asked request.retention ≡ Option.map as_asked input.retention
  pub other_search_settings : others_of request.search_settings ≡ others_of cfg.search_settings
  pub other_indexing_settings :
      others_of request.indexing_settings ≡ others_of cfg.indexing_settings
  pub index_id : request.index_id ≡ cfg.index_id
  pub index_uri : request.index_uri ≡ cfg.index_uri
  pub others : request.others ≡ cfg.others

pub to_update_index_request-IsRequested :
    (cfg : QuickwitIndexConfig) (input : UpdateQuickwitConfigInput)
    → IsKnown input.dynamic_mapping
    → IsRequested cfg input (to_update_index_request cfg input)
      × (to_update_index_request
            (to_update_index_request cfg input)
            (record input { new_field_mappings = [] })
          ≡ to_update_index_request cfg input)
unfolding to_update_index_request
to_update_index_request-IsRequested cfg input known = (
  record {
    doc_mapping = request_doc-IsApplied cfg.doc_mapping input known;
    default_search_fields =
        ap (λ o. Option.get_or o [])
          (value_of-put_setting cfg.search_settings (non_empty input.default_search_fields))
        ∙ get_or-non_empty input.default_search_fields;
    commit_timeout_secs = value_of-put_setting cfg.indexing_settings input.commit_timeout_secs;
    retention = as_asked-to_retention input.retention;
    other_search_settings =
        others_of-put_setting cfg.search_settings (non_empty input.default_search_fields);
    other_indexing_settings = others_of-put_setting cfg.indexing_settings input.commit_timeout_secs;
    index_id = refl;
    index_uri = refl;
    others = refl;
  },
  to_update_index_request-again cfg input,
)
