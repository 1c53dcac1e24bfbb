-- ===== src/Sources/Secrets.antt =====
-- The secrets of a Kafka source, when it is shown and when it is edited.
use rootprint.Common.{
  ◌≡◌, ◌≢◌, refl, sym, ap, ◌∙◌, inl, inr, Text, codes, text_eq, text_beq, ◌==◌, ==-refl, ==-sound,
  ==-true, Bool, true, false, Bool-cases, Option, none, some, [], ◌∷◌, if◌then◌else◌,
}
use mathlib.Core.Option
use rootprint.Common.Dict
use rootprint.Common.Dict.{Dict}
use rootprint.Sources.{
  Setting, string, Params, SourceConfig, UpdateSourceInput, kafka, text, boolean, settings, given,
  put_given, secret_mask, is_secret_key, is_mask, shown_setting, redact_secrets, restore_secrets,
  put_stored, settings_in, build_source_params, to_source_config_request, project_source,
}

get-redact_secrets :
    (d : Dict Text Setting) (j : Text)
    → Dict.get (redact_secrets d) j ≡ Option.map (shown_setting j) (Dict.get d j)
unfolding redact_secrets Dict.get
get-redact_secrets [] j = refl
get-redact_secrets ((k, v) ∷ d) j = elim (Bool-cases (k == j)) [
  | inl e ↦ rw e (ap (λ i. some (shown_setting i v)) (==-sound k j e))
  | inr e ↦ rw e (get-redact_secrets d j)
]

redact_secrets-NoDup : (d : Dict Text Setting) → Dict.NoDup d → Dict.NoDup (redact_secrets d)
unfolding redact_secrets
redact_secrets-NoDup [] h = tt
redact_secrets-NoDup ((k, v) ∷ d) (p, h) =
    (get-redact_secrets d k ∙ ap (Option.map (shown_setting k)) p, redact_secrets-NoDup d h)

-- What an update makes of a value that comes in, with what is stored under its key.
abbrev restored : Option Setting → Option Setting → Option Setting
restored none stored = none
restored (some v) stored = if is_mask v then stored else some v

get-put_stored_self :
    (o : Option Setting) (k : Text) (out : Dict Text Setting)
    → Dict.get out k ≡ none
    → Dict.get (put_stored o k out) k ≡ o
unfolding Dict.get
get-put_stored_self none k out h = h
get-put_stored_self (some v) k out h = rw (==-refl k) refl

get-put_stored_ne :
    (o : Option Setting) (k j : Text) (out : Dict Text Setting)
    → (k == j) ≡ false
    → Dict.get (put_stored o k out) j ≡ Dict.get out j
unfolding Dict.get
get-put_stored_ne none k j out h = refl
get-put_stored_ne (some v) k j out h = rw h refl

get-restore_secrets :
    (incoming stored : Dict Text Setting) (j : Text)
    → Dict.NoDup incoming
    → Dict.get (restore_secrets incoming stored) j
      ≡ restored (Dict.get incoming j) (Dict.get stored j)
unfolding restore_secrets Dict.get
get-restore_secrets [] stored j h = refl
get-restore_secrets ((k, v) ∷ incoming) stored j (p, h) = elim (Bool-cases (is_mask v)) [
  | inl m ↦ elim (Bool-cases (k == j)) [
    | inl e ↦
        let same : k ≡ j = ==-sound k j e in
        let rest = restore_secrets incoming stored in
        rw (m, e, m)
          (ap (Dict.get (put_stored (Dict.get stored k) k rest)) (sym same)
            ∙ get-put_stored_self (Dict.get stored k) k rest (
                get-restore_secrets incoming stored k h
                ∙ ap (λ o. restored o (Dict.get stored k)) p)
            ∙ ap (Dict.get stored) same)
    | inr e ↦
        rw (m, e)
          (get-put_stored_ne (Dict.get stored k) k j (restore_secrets incoming stored) e
            ∙ get-restore_secrets incoming stored j h)
  ]
  | inr m ↦ elim (Bool-cases (k == j)) [
    | inl e ↦ rw (m, e, m) refl
    | inr e ↦ rw (m, e) (get-restore_secrets incoming stored j h)
  ]
]

if-same : {v : Setting} (b : Bool) → (if b then some v else some v) ≡ some v
if-same true = refl
if-same false = refl

unchanged : (j : Text) (o : Option Setting) → restored (Option.map (shown_setting j) o) o ≡ o
unchanged j none = refl
unchanged j (some v) = elim (Bool-cases (is_secret_key j)) [
  | inl e ↦ rw e (rw (==-refl secret_mask) refl)
  | inr e ↦ rw e same
]
  where
    same : (if is_mask v then some v else some v) ≡ some v
    same = if-same (is_mask v)

-- What an edit of one value makes of the stored ones.
restored-edit :
    (d : Dict Text Setting) (k : Text) (v : Setting) (j : Text)
    → Dict.NoDup d
    → is_mask v ≡ false
    → Dict.get (restore_secrets (Dict.set (redact_secrets d) k v) d) j
      ≡ (if k == j then some v else Dict.get d j)
restored-edit d k v j h m =
    get-restore_secrets (Dict.set (redact_secrets d) k v) d j
      (Dict.set-NoDup (redact_secrets d) k v (redact_secrets-NoDup d h))
    ∙ edited (k == j) refl
  where
    edited :
        (b : Bool)
        → (k == j) ≡ b
        → restored (Dict.get (Dict.set (redact_secrets d) k v) j) (Dict.get d j)
          ≡ (if b then some v else Dict.get d j)
    edited true e =
        ap (λ i. restored (Dict.get (Dict.set (redact_secrets d) k v) i) (Dict.get d j))
          (sym (==-sound k j e))
        ∙ ap (λ o. restored o (Dict.get d j)) (Dict.get-set_self (redact_secrets d) k v)
        ∙ rw m refl
    edited false e =
        ap (λ o. restored o (Dict.get d j))
          (Dict.get-set_ne (redact_secrets d) v (λ p. cc (e, ==-true k j p))
            ∙ get-redact_secrets d j)
        ∙ unchanged j (Dict.get d j)

keys_apart : codes "enable_backfill_mode" ≢ codes "client_params"
unfolding text_beq
keys_apart p = cc (==-true (codes "enable_backfill_mode") (codes "client_params") p)

build-client_params :
    (topic : Text) (level : Option Text) (backfill : Option Bool) (p : Params)
    (incoming d : Dict Text Setting)
    → settings_in (Dict.get p (codes "client_params")) ≡ some d
    → settings_in (
        Dict.get
          (build_source_params (kafka topic level (some incoming) backfill) (some p))
          (codes "client_params"))
      ≡ some (restore_secrets incoming d)
unfolding build_source_params
build-client_params topic level backfill p incoming d e =
    let base =
      put_given (given level) (codes "client_log_level") ((codes "topic", text topic) ∷ []) in
    let sent = settings (
      restore_secrets incoming
        (Option.get_or (settings_in (Dict.get p (codes "client_params"))) [])) in
    ap settings_in (
      Dict.get-set_ne (Dict.set base (codes "client_params") sent)
        (boolean (Option.get_or backfill false)) keys_apart
      ∙ Dict.get-set_self base (codes "client_params") sent)
    ∙ ap (λ o. some (restore_secrets incoming (Option.get_or o []))) e

-- The `client_params` of a request.
abbrev pub sent_params : SourceConfig → Option (Dict Text Setting)
sent_params request =
    settings_in (Dict.get (Option.get_or request.params []) (codes "client_params"))

-- For a Kafka source whose stored `client_params` have no key twice: what `projectSource` shows has the mask
-- under each key for a password or a secret, and an update that sends back what was shown, with one value
-- changed to something other than the mask, sends the stored values with that one changed.
pub project_source-update :
    (source_id : Text) (current : SourceConfig) (d : Dict Text Setting)
    → sent_params current ≡ some d
    → Dict.NoDup d
    → (input : UpdateSourceInput) (topic : Text) (level : Option Text) (backfill : Option Bool)
      (k : Text) (v : Setting)
    → is_mask v ≡ false
    → (shown : Dict Text Setting) × ((project_source current).client_params ≡ some shown)
      × ((j : Text)
          → is_secret_key j ≡ true
          → Dict.get shown j ≡ Option.map (λ _. string secret_mask) (Dict.get d j))
      × ((e : Dict Text Setting) × (sent_params (
              to_source_config_request source_id
                (record input { source = kafka topic level (some (Dict.set shown k v)) backfill })
                (some current))
            ≡ some e)
          × ((j : Text) → Dict.get e j ≡ (if k == j then some v else Dict.get d j)))
unfolding project_source to_source_config_request
project_source-update source_id current d stored h input topic level backfill k v m = (
  redact_secrets d,
  ap (Option.map redact_secrets) stored,
  λ j secret.
      get-redact_secrets d j
      ∙ ap (λ (f : Setting → Setting). Option.map f (Dict.get d j))
          (λ i w. if secret i then string secret_mask else w),
  (
    restore_secrets (Dict.set (redact_secrets d) k v) d,
    build-client_params topic level backfill (Option.get_or current.params [])
        (Dict.set (redact_secrets d) k v) d stored,
    λ j. restored-edit d k v j h m,
  ),
)
