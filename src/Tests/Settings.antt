-- ===== src/Tests/Settings.antt =====
-- A provider of identities that is saved and changed, the identity at boot, and the secret of two processes.
use rootprint.Common.{
  ◌≡◌, ◌≢◌, ◌⊎◌, inl, refl, Text, codes, text_eq, text_beq, none, some, List, [], ◌∷◌,
}
use rootprint.Common.Dict
use rootprint.Common.Dict.{Dict}
use rootprint.Http.{ok}
use rootprint.Accounts.{Account, Session}
use rootprint.Settings.{
  Db, OidcCredentials, oidc_issuer_url, oidc_client_id, identity_of, stored_identity,
  load_auth_config, sync_oidc_env_identity, put_oidc_auth_credentials,
}
use rootprint.Settings.Oidc.{IsUnlinked, put_oidc_auth_credentials-load}
use rootprint.Settings.Boot.{sync_oidc_env_identity-once}
use rootprint.Settings.Secret.{
  insert_secret, insert_secrets, existing_secret, existing_secret-agrees,
}

abbrev provider : OidcCredentials
provider = record {
  issuer_url = codes "https://id.example";
  client_id = codes "web";
  client_secret = codes "s";
}

abbrev linked : Account
linked = record {
  id = codes "a1";
  account_id = codes "x";
  provider_id = codes "oidc";
  user_id = codes "u1";
  password = none;
}

abbrev signed_in : Text → Session
signed_in user_id = record { token = codes "t"; user_id = user_id }

abbrev before_change : Db
before_change = record {
  app_settings = (codes "oidc_client_id", codes "old") ∷ [];
  accounts = linked ∷ [];
  sessions = signed_in (codes "u1") ∷ signed_in (codes "u2") ∷ [];
}

put_oidc_auth_credentials_test :
    (put_oidc_auth_credentials before_change provider).sessions ≡ signed_in (codes "u2") ∷ []
unfolding put_oidc_auth_credentials text_beq
put_oidc_auth_credentials_test = refl

put_oidc_auth_credentials-load_example :
    (load_auth_config none (put_oidc_auth_credentials before_change provider)
      ≡ record (load_auth_config none before_change) { oidc = some provider })
    × ((Dict.get before_change.app_settings oidc_issuer_url ≡ some provider.issuer_url)
          × (Dict.get before_change.app_settings oidc_client_id ≡ some provider.client_id)
        → ((put_oidc_auth_credentials before_change provider).accounts ≡ before_change.accounts)
          × ((put_oidc_auth_credentials before_change provider).sessions ≡ before_change.sessions))
    × ((Dict.get before_change.app_settings oidc_issuer_url ≢ some provider.issuer_url)
          ⊎ (Dict.get before_change.app_settings oidc_client_id ≢ some provider.client_id)
        → IsUnlinked before_change (put_oidc_auth_credentials before_change provider))
put_oidc_auth_credentials-load_example =
    put_oidc_auth_credentials-load before_change provider refl refl refl

sync_oidc_env_identity-once_example :
    (sync_oidc_env_identity (some provider) (sync_oidc_env_identity (some provider) before_change)
      ≡ sync_oidc_env_identity (some provider) before_change)
    × (stored_identity (sync_oidc_env_identity (some provider) before_change)
        ≡ some (identity_of provider))
    × (stored_identity before_change ≡ some (identity_of provider)
        → ((sync_oidc_env_identity (some provider) before_change).accounts ≡ before_change.accounts)
          × ((sync_oidc_env_identity (some provider) before_change).sessions
              ≡ before_change.sessions))
    × (stored_identity before_change ≢ some (identity_of provider)
        → IsUnlinked before_change (sync_oidc_env_identity (some provider) before_change))
    × ((c : OidcCredentials)
        → some provider ≡ some c
        → (load_auth_config none (sync_oidc_env_identity (some provider) before_change)).oidc
          ≡ none)
sync_oidc_env_identity-once_example = sync_oidc_env_identity-once (some provider) before_change

existing_secret-agrees_example :
    (s : Text) × (existing_secret
        (insert_secret (codes "one") []).0
        (insert_secrets (codes "two" ∷ []) (insert_secret (codes "one") []).1)
      ≡ ok s)
    × ((d : Text) (ds : List Text)
        → existing_secret
            (insert_secret d
              (insert_secrets (codes "two" ∷ []) (insert_secret (codes "one") []).1)).0
            (insert_secrets ds
              (insert_secret d
                (insert_secrets (codes "two" ∷ []) (insert_secret (codes "one") []).1)).1)
          ≡ ok s)
unfolding Dict.get
existing_secret-agrees_example =
    existing_secret-agrees (codes "one") (codes "two" ∷ []) [] refl (inl refl)
