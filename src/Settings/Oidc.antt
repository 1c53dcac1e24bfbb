-- ===== src/Settings/Oidc.antt =====
-- The provider that the settings name, its saved credentials and the sessions of those linked to it.
use rootprint.Common.{
  ◌≡◌, refl, ap, ◌∙◌, inl, inr, ◌⊎◌, Text, text_eq, text_beq, ◌==◌, ==-refl, ==-sound, sym, Bool,
  true, false, not, ◌||◌, Bool-cases, Option, none, some, List, [], ◌∷◌, if◌then◌else◌, filter,
  includes, is_empty, arith, All, ◌≢◌,
}
use mathlib.Core.Bool.{false≢true}
use rootprint.Common.Dict
use rootprint.Common.Dict.{Dict}
use rootprint.Settings.{
  OidcCredentials, Db, oidc, oidc_issuer_url, oidc_client_id, oidc_client_secret, load_settings,
  delete_settings, upsert_values, put_values, is_linked_to, saved_oidc, credentials_from,
  revoke_sessions_linked_to, unlink_oidc, is_value, identity_changed, put_oidc_auth_credentials,
  load_auth_config, AuthConfig,
}

pub get-load_settings :
    (settings : Dict Text Text) (wanted : List Text) (k : Text)
    → Dict.get (load_settings settings wanted) k
      ≡ (if includes wanted k then Dict.get settings k else none)
unfolding load_settings
get-load_settings settings wanted k = Dict.get-filter (includes wanted) settings k

pub get-delete_settings :
    (settings : Dict Text Text) (unwanted : List Text) (k : Text)
    → Dict.get (delete_settings settings unwanted) k
      ≡ (if not (includes unwanted k) then Dict.get settings k else none)
unfolding delete_settings
get-delete_settings settings unwanted k =
    Dict.get-filter (λ x. not (includes unwanted x)) settings k

-- The lookups of `load_auth_config` after the three entries of the provider were written.
load-put_values :
    (db : Db) (input : OidcCredentials)
    → is_empty input.issuer_url ≡ false
    → is_empty input.client_id ≡ false
    → is_empty input.client_secret ≡ false
    → load_auth_config none (
        put_values db (
          (oidc_issuer_url, input.issuer_url)
          ∷ (oidc_client_id, input.client_id)
          ∷ (oidc_client_secret, input.client_secret)
          ∷ []))
      ≡ record (load_auth_config none db) { oidc = some input }
unfolding load_auth_config put_values upsert_values saved_oidc credentials_from text_beq
load-put_values db input p q r = simp (get-load_settings, Dict.get-set, p, q, r)

-- What became of the accounts and sessions of those who signed in through the provider.
pub record IsUnlinked (db db' : Db) : Type 0 where
  pub signed_out : All (λ s. is_linked_to oidc db.accounts s.user_id ≡ false) db'.sessions
  pub unlinked : All (λ a. (a.provider_id == oidc) ≡ false) db'.accounts
  pub other_sessions :
      filter (λ s. not (is_linked_to oidc db.accounts s.user_id)) db.sessions ≡ db'.sessions
  pub other_accounts : filter (λ a. not (a.provider_id == oidc)) db.accounts ≡ db'.accounts

All-filter-not {ℓ} :
    {A : Type ℓ} (p : A → Bool) (xs : List A) → All (λ x. p x ≡ false) (filter (λ x. not (p x)) xs)
All-filter-not p [] = tt
All-filter-not p (x ∷ xs) = ground (arith, All-filter-not p xs)

pub unlink_oidc-settings :
    (db : Db) (settings : Dict Text Text)
    → IsUnlinked db (record (unlink_oidc db) { app_settings = settings })
unfolding unlink_oidc revoke_sessions_linked_to
unlink_oidc-settings db settings = record {
  signed_out = All-filter-not (λ s. is_linked_to oidc db.accounts s.user_id) db.sessions;
  unlinked = All-filter-not (λ a. a.provider_id == oidc) db.accounts;
  other_sessions = refl;
  other_accounts = refl;
}

load-unlink_oidc :
    (db : Db) (input : OidcCredentials)
    → ◌≡◌ {A = AuthConfig}
        (record (load_auth_config none (unlink_oidc db)) { oidc = some input })
        (record (load_auth_config none db) { oidc = some input })
unfolding unlink_oidc load_auth_config
load-unlink_oidc db input = refl

is_value_sound : (o : Option Text) (s : Text) → is_value o s ≡ true → o ≡ some s
is_value_sound none s h = cc
is_value_sound (some t) s h = ap some (==-sound t s h)

-- The test of the code compares the rows that it loads.
identity_changed-rows :
    (db : Db) (input : OidcCredentials)
    → identity_changed db input ≡ (
        not (is_value (Dict.get db.app_settings oidc_issuer_url) input.issuer_url)
        || not (is_value (Dict.get db.app_settings oidc_client_id) input.client_id))
unfolding text_beq identity_changed Dict.get
identity_changed-rows db input = simp get-load_settings

same_identity :
    (db : Db) (input : OidcCredentials)
    → identity_changed db input ≡ false
    → (Dict.get db.app_settings oidc_issuer_url ≡ some input.issuer_url)
      × (Dict.get db.app_settings oidc_client_id ≡ some input.client_id)
same_identity db input h =
    let rows = sym (identity_changed-rows db input) ∙ h in
    (
      is_value_sound _ input.issuer_url (ground (arith, rows)),
      is_value_sound _ input.client_id (ground (arith, rows)),
    )

unchanged :
    (db : Db) (input : OidcCredentials)
    → Dict.get db.app_settings oidc_issuer_url ≡ some input.issuer_url
    → Dict.get db.app_settings oidc_client_id ≡ some input.client_id
    → identity_changed db input ≡ false
unchanged db input h k =
    identity_changed-rows db input
    ∙ rw (h, k, ==-refl input.issuer_url, ==-refl input.client_id) refl

-- Saved credentials, written again: `load_auth_config` gives them back, and what it says of the other providers and
-- of passwords is as before. Where issuer and client are the ones that stood there, nobody is signed
-- out; where one of them is not, the sessions of all who are linked to the provider are gone, with the links.
pub put_oidc_auth_credentials-load :
    (db : Db) (input : OidcCredentials)
    → is_empty input.issuer_url ≡ false
    → is_empty input.client_id ≡ false
    → is_empty input.client_secret ≡ false
    → let db' = put_oidc_auth_credentials db input in
      (load_auth_config none db' ≡ record (load_auth_config none db) { oidc = some input })
      × ((Dict.get db.app_settings oidc_issuer_url ≡ some input.issuer_url)
            × (Dict.get db.app_settings oidc_client_id ≡ some input.client_id)
          → (db'.accounts ≡ db.accounts) × (db'.sessions ≡ db.sessions))
      × ((Dict.get db.app_settings oidc_issuer_url ≢ some input.issuer_url)
            ⊎ (Dict.get db.app_settings oidc_client_id ≢ some input.client_id)
          → IsUnlinked db db')
unfolding put_oidc_auth_credentials
put_oidc_auth_credentials-load db input p q r = elim (Bool-cases (identity_changed db input)) [
  | inl e ↦ rw e (
    load-put_values (unlink_oidc db) input p q r ∙ load-unlink_oidc db input,
    λ (h, k). absurd (false≢true (sym (unchanged db input h k) ∙ e)),
    λ _. unlink_oidc-settings db (
        upsert_values db.app_settings (
          (oidc_issuer_url, input.issuer_url)
          ∷ (oidc_client_id, input.client_id)
          ∷ (oidc_client_secret, input.client_secret)
          ∷ [])),
  )
  | inr e ↦ rw e (
    load-put_values db input p q r,
    λ _. (refl, refl),
    λ ne. absurd (elim ne [
      | inl i ↦ i (same_identity db input e).0
      | inr c ↦ c (same_identity db input e).1
    ]),
  )
]
