-- ===== src/Settings.antt =====
-- The settings of sign-in, apps/api/src/services/settings.service.ts, with the secret of
-- apps/api/src/lib/secret.ts. The table app_settings is its entries, whose keys are unique; a Map is made
-- of the rows that are loaded. `safe_parse` is the check of oidcCredentialsSchema, and `parse_array` what
-- JSON.parse makes of a text: its elements, if it is an array, each a text or not.
pub mod Oidc
pub mod Providers
pub mod Boot
pub mod Secret
pub mod Discovery
use rootprint.Common.{
  Text, codes, text_eq, ◌==◌, Bool, true, false, not, ◌&&◌, ◌||◌, Option, none, some, List, [], ◌∷◌,
  if◌then◌else◌, filter, any, includes, is_empty, ◌++◌,
}
use mathlib.Core.Option
use rootprint.Common.Dict
use rootprint.Common.Dict.{Dict}
use rootprint.Http.{Result, ok, fail, raise, conflict}
use rootprint.Accounts.{Account, Session}

pub record OAuthCredentials : Type 0 where
  pub client_id : Text
  pub client_secret : Text

pub record OidcCredentials : Type 0 where
  pub issuer_url : Text
  pub client_id : Text
  pub client_secret : Text

pub record AuthConfig : Type 0 where
  pub google : Option OAuthCredentials
  pub github : Option OAuthCredentials
  pub oidc : Option OidcCredentials
  pub password_sign_in_disabled : Bool

pub record OidcAuthSettings : Type 0 where
  pub configured : Bool
  pub issuer_url : Option Text
  pub managed_by_env : Bool

-- GoogleAuthSettings and GitHubAuthSettings, whose list is of domains or of organisations.
pub record OAuthSettings : Type 0 where
  pub configured : Bool
  pub allowed : List Text

pub record Db : Type 0 where
  pub app_settings : Dict Text Text
  pub accounts : List Account
  pub sessions : List Session

abbrev pub google_client_id : Text
google_client_id = codes "google_client_id"

abbrev pub google_client_secret : Text
google_client_secret = codes "google_client_secret"

abbrev pub google_allowed_domains : Text
google_allowed_domains = codes "google_allowed_domains"

abbrev pub github_client_id : Text
github_client_id = codes "github_client_id"

abbrev pub github_client_secret : Text
github_client_secret = codes "github_client_secret"

abbrev pub github_allowed_orgs : Text
github_allowed_orgs = codes "github_allowed_orgs"

abbrev pub oidc_issuer_url : Text
oidc_issuer_url = codes "oidc_issuer_url"

abbrev pub oidc_client_id : Text
oidc_client_id = codes "oidc_client_id"

abbrev pub oidc_client_secret : Text
oidc_client_secret = codes "oidc_client_secret"

abbrev pub oidc_credential_keys : List Text
oidc_credential_keys = oidc_issuer_url ∷ oidc_client_id ∷ oidc_client_secret ∷ []

abbrev pub oidc_env_identity : Text
oidc_env_identity = codes "oidc_env_identity"

abbrev pub password_sign_in_disabled_key : Text
password_sign_in_disabled_key = codes "password_sign_in_disabled"

abbrev pub auth_keys : List Text
auth_keys =
    google_client_id ∷ google_client_secret ∷ github_client_id ∷ github_client_secret
    ∷ oidc_issuer_url ∷ oidc_client_id ∷ oidc_client_secret ∷ password_sign_in_disabled_key ∷ []

pub load_settings : Dict Text Text → List Text → Dict Text Text
load_settings settings wanted = filter (λ r. includes wanted r.0) settings

pub delete_settings : Dict Text Text → List Text → Dict Text Text
delete_settings settings unwanted = filter (λ r. not (includes unwanted r.0)) settings

unfoldable pub upsert_values : Dict Text Text → Dict Text Text → Dict Text Text
unfolding Dict.set
upsert_values settings [] = settings
upsert_values settings ((key, value) ∷ values) = upsert_values (Dict.set settings key value) values

pub put_values : Db → Dict Text Text → Db
unfolding upsert_values
put_values db values = record db { app_settings = upsert_values db.app_settings values }

abbrev pub is_linked_to : Text → List Account → Text → Bool
is_linked_to provider accounts user_id =
    any (λ a. a.provider_id == provider && a.user_id == user_id) accounts

pub revoke_sessions_linked_to : Text → Db → Db
revoke_sessions_linked_to provider db = record db {
  sessions = filter (λ s. not (is_linked_to provider db.accounts s.user_id)) db.sessions;
}

pub delete_provider_credentials : List Text → (Db → Db) → Db → Db
unfolding delete_settings
delete_provider_credentials unwanted cleanup db =
    cleanup (record db { app_settings = delete_settings db.app_settings unwanted })

-- The empty text is falsy.
abbrev truthy : Option Text → Option Text
truthy none = none
truthy (some s) = if is_empty s then none else some s

abbrev both : Option Text → Option Text → Option OAuthCredentials
both none secret = none
both (some id) none = none
both (some id) (some secret) = some (record { client_id = id; client_secret = secret })

pub credentials_from : Dict Text Text → Text → Text → Option OAuthCredentials
unfolding Dict.get
credentials_from by_key id_key secret_key =
    both (truthy (Dict.get by_key id_key)) (truthy (Dict.get by_key secret_key))

module _ (safe_parse : OidcCredentials → Option OidcCredentials) where
  -- The variables OIDC_*, each empty if it is unset.
  unfoldable pub oidc_from_env : OidcCredentials → Result (Option OidcCredentials)
  oidc_from_env env =
      if is_empty env.issuer_url && is_empty env.client_id && is_empty env.client_secret
      then ok none
      else if is_empty env.issuer_url || is_empty env.client_id || is_empty env.client_secret
      then raise (record { code = none; cause_code = none })
      else elim (safe_parse env) [
        | none ↦ raise (record { code = none; cause_code = none })
        | some output ↦ ok (some output)
      ]

  pub assert_oidc_not_managed_by_env : OidcCredentials → Result (Unit {0})
  unfolding oidc_from_env
  assert_oidc_not_managed_by_env env = elim (oidc_from_env env) [
    | ok none ↦ ok tt
    | ok (some c) ↦ fail (
        conflict (codes "OpenID Connect is configured by environment variables")
          (codes "OIDC_MANAGED_BY_ENV") [])
    | fail e ↦ fail e
    | raise t ↦ raise t
  ]

abbrev with_issuer : Option OAuthCredentials → Option Text → Option OidcCredentials
with_issuer none url = none
with_issuer (some c) none = none
with_issuer (some c) (some url) =
    some (record { issuer_url = url; client_id = c.client_id; client_secret = c.client_secret })

-- The credentials of the provider that were saved in the settings.
pub saved_oidc : Dict Text Text → Option OidcCredentials
unfolding credentials_from Dict.get
saved_oidc by_key =
    with_issuer (credentials_from by_key oidc_client_id oidc_client_secret)
      (truthy (Dict.get by_key oidc_issuer_url))

abbrev pub or_saved : Option OidcCredentials → Option OidcCredentials → Option OidcCredentials
or_saved none saved = saved
or_saved (some c) saved = some c

abbrev is_true : Option Text → Bool
is_true none = false
is_true (some s) = s == codes "true"

-- `env` is what `oidcFromEnv` returned; where it throws, so does the call.
unfoldable pub load_auth_config : Option OidcCredentials → Db → AuthConfig
unfolding load_settings credentials_from saved_oidc Dict.get
load_auth_config env db =
    let by_key = load_settings db.app_settings auth_keys in
    record {
      google = credentials_from by_key google_client_id google_client_secret;
      github = credentials_from by_key github_client_id github_client_secret;
      oidc = or_saved env (saved_oidc by_key);
      password_sign_in_disabled = is_true (Dict.get by_key password_sign_in_disabled_key);
    }

abbrev pub oidc : Text
oidc = codes "oidc"

pub get_oidc_auth_status : Option OidcCredentials → Db → OidcAuthSettings
unfolding load_auth_config
get_oidc_auth_status (some env) db = record {
  configured = true;
  issuer_url = some env.issuer_url;
  managed_by_env = true;
}
get_oidc_auth_status none db =
    let saved = (load_auth_config none db).oidc in
    record {
      configured = Dict.is_some saved;
      issuer_url = Option.map (λ c. c.issuer_url) saved;
      managed_by_env = false;
    }

pub unlink_oidc : Db → Db
unfolding revoke_sessions_linked_to
unlink_oidc db =
    let db' = revoke_sessions_linked_to oidc db in
    record db' { accounts = filter (λ a. not (a.provider_id == oidc)) db'.accounts }

abbrev pub identity_of : OidcCredentials → Text
identity_of env = env.issuer_url ++ b'|' ∷ env.client_id

abbrev pub same_text : Option Text → Option Text → Bool
same_text none none = true
same_text (some s) (some t) = s == t
same_text _ _ = false

pub drop_saved : Option OidcCredentials → Db → Db
unfolding delete_settings
drop_saved none db = db
drop_saved (some env) db = record db {
  app_settings = delete_settings db.app_settings oidc_credential_keys;
}

-- An identity that is not empty; it has the bar in it.
pub note_identity : Option Text → Db → Db
unfolding upsert_values delete_settings
note_identity none db = record db {
  app_settings = delete_settings db.app_settings (oidc_env_identity ∷ []);
}
note_identity (some current) db = record db {
  app_settings = upsert_values db.app_settings ((oidc_env_identity, current) ∷ []);
}

pub stored_identity : Db → Option Text
unfolding load_settings Dict.get
stored_identity db =
    Dict.get (load_settings db.app_settings (oidc_env_identity ∷ [])) oidc_env_identity

unfoldable pub sync_oidc_env_identity : Option OidcCredentials → Db → Db
unfolding unlink_oidc stored_identity drop_saved note_identity
sync_oidc_env_identity env db =
    let current = Option.map identity_of env in
    let db' = drop_saved env db in
    if same_text (stored_identity db') current then db' else note_identity current (unlink_oidc db')

abbrev pub is_value : Option Text → Text → Bool
is_value none s = false
is_value (some t) s = t == s

pub identity_changed : Db → OidcCredentials → Bool
unfolding load_settings Dict.get
identity_changed db input =
    let current = load_settings db.app_settings (oidc_issuer_url ∷ oidc_client_id ∷ []) in
    not (is_value (Dict.get current oidc_issuer_url) input.issuer_url)
    || not (is_value (Dict.get current oidc_client_id) input.client_id)

unfoldable pub put_oidc_auth_credentials : Db → OidcCredentials → Db
unfolding unlink_oidc put_values identity_changed
put_oidc_auth_credentials db input =
    put_values (if identity_changed db input then unlink_oidc db else db) (
      (oidc_issuer_url, input.issuer_url)
      ∷ (oidc_client_id, input.client_id)
      ∷ (oidc_client_secret, input.client_secret)
      ∷ [])

unfoldable pub delete_oidc_auth_credentials : Db → Db
unfolding delete_provider_credentials unlink_oidc
delete_oidc_auth_credentials = delete_provider_credentials oidc_credential_keys unlink_oidc
