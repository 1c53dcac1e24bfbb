-- ===== src/Settings/Providers.antt =====
-- The settings of Google and GitHub, and of passwords.
use rootprint.Common.{
  Text, codes, text_eq, Bool, ◌&&◌, Option, none, some, List, [], ◌∷◌, if◌then◌else◌, is_empty,
}
use rootprint.Common.Dict
use rootprint.Common.Dict.{Dict}
use rootprint.Settings.{
  OAuthCredentials, OAuthSettings, Db, google_client_id, google_client_secret,
  google_allowed_domains, github_client_id, github_client_secret, github_allowed_orgs,
  password_sign_in_disabled_key, load_settings, put_values, revoke_sessions_linked_to,
  delete_provider_credentials,
}

module _ (parse_array : Text → Option (List (Option Text))) where
  abbrev texts : List (Option Text) → List Text
  texts [] = []
  texts (none ∷ xs) = texts xs
  texts (some s ∷ xs) = s ∷ texts xs

  pub parse_string_list : Option Text → List Text
  parse_string_list none = []
  parse_string_list (some raw) =
      if is_empty raw then [] else elim (parse_array raw) [ none ↦ [] | some xs ↦ texts xs ]

  abbrev status : Text → Text → Text → Db → OAuthSettings
  unfolding load_settings Dict.get parse_string_list
  status id_key secret_key list_key db =
      let by_key = load_settings db.app_settings (id_key ∷ secret_key ∷ list_key ∷ []) in
      record {
        configured = Dict.has by_key id_key && Dict.has by_key secret_key;
        allowed = parse_string_list (Dict.get by_key list_key);
      }

  pub get_google_auth_status : Db → OAuthSettings
  unfolding load_settings Dict.get parse_string_list
  get_google_auth_status = status google_client_id google_client_secret google_allowed_domains

  pub get_github_auth_status : Db → OAuthSettings
  unfolding load_settings Dict.get parse_string_list
  get_github_auth_status = status github_client_id github_client_secret github_allowed_orgs

pub put_google_auth_credentials : Db → OAuthCredentials → Db
unfolding put_values
put_google_auth_credentials db input =
    put_values db
      ((google_client_id, input.client_id) ∷ (google_client_secret, input.client_secret) ∷ [])

pub delete_google_auth_credentials : Db → Db
unfolding delete_provider_credentials revoke_sessions_linked_to
delete_google_auth_credentials =
    delete_provider_credentials (google_client_id ∷ google_client_secret ∷ [])
      (revoke_sessions_linked_to (codes "google"))

-- `stringify` is JSON.stringify on a list of texts.
pub put_google_auth_allowed_domains : (List Text → Text) → Db → List Text → Db
unfolding put_values
put_google_auth_allowed_domains stringify db domains =
    put_values db ((google_allowed_domains, stringify domains) ∷ [])

pub put_github_auth_credentials : Db → OAuthCredentials → Db
unfolding put_values
put_github_auth_credentials db input =
    put_values db
      ((github_client_id, input.client_id) ∷ (github_client_secret, input.client_secret) ∷ [])

pub delete_github_auth_credentials : Db → Db
unfolding delete_provider_credentials revoke_sessions_linked_to
delete_github_auth_credentials =
    delete_provider_credentials (github_client_id ∷ github_client_secret ∷ [])
      (revoke_sessions_linked_to (codes "github"))

pub put_github_auth_allowed_orgs : (List Text → Text) → Db → List Text → Db
unfolding put_values
put_github_auth_allowed_orgs stringify db orgs =
    put_values db ((github_allowed_orgs, stringify orgs) ∷ [])

pub put_password_sign_in_disabled : Db → Bool → Db
unfolding put_values
put_password_sign_in_disabled db disabled =
    put_values db
      ((password_sign_in_disabled_key, if disabled then codes "true" else codes "false") ∷ [])
