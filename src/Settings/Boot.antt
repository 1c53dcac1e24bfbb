-- ===== src/Settings/Boot.antt =====
-- The start of the server: the provider of the environment and the one of the settings.
use rootprint.Common.{
  ◌≡◌, ◌≢◌, ◌↔◌, refl, ap, sym, ◌∙◌, inl, inr, Text, text_eq, text_beq, ==-sound, ==-true, Bool,
  true, not, Bool-cases, Option, none, some, [], ◌∷◌, filter, includes, arith, All-filter_self,
  filter-all,
}
use mathlib.Core.Option
use mathlib.Core.Bool.{false≢true}
use mathlib.Core.Option.{some-injective}
use rootprint.Common.Dict
use rootprint.Common.Dict.{Dict}
use rootprint.Settings.{
  OidcCredentials, Db, oidc_credential_keys, oidc_env_identity, oidc_client_id, delete_settings,
  upsert_values, unlink_oidc, load_auth_config, saved_oidc, credentials_from,
  sync_oidc_env_identity, identity_of, stored_identity, drop_saved, note_identity, same_text,
}
use rootprint.Settings.Oidc.{
  get-load_settings, get-delete_settings, IsUnlinked, unlink_oidc-settings,
}

same_text_iff : (o p : Option Text) → (same_text o p ≡ true) ↔ (o ≡ p)
same_text_iff none none = (λ _. refl, λ _. refl)
same_text_iff none (some t) = ground arith
same_text_iff (some s) none = ground arith
same_text_iff (some s) (some t) =
    (λ h. ap some (==-sound s t h), λ h. ==-true s t (some-injective s t h))

stored_identity-get : (db : Db) → stored_identity db ≡ Dict.get db.app_settings oidc_env_identity
unfolding stored_identity text_beq
stored_identity-get db =
    get-load_settings db.app_settings (oidc_env_identity ∷ []) oidc_env_identity

stored_identity-drop_saved :
    (env : Option OidcCredentials) (db : Db)
    → stored_identity (drop_saved env db) ≡ stored_identity db
unfolding drop_saved text_beq
stored_identity-drop_saved none db = refl
stored_identity-drop_saved (some env) db =
    stored_identity-get (drop_saved (some env) db)
    ∙ get-delete_settings db.app_settings oidc_credential_keys oidc_env_identity
    ∙ sym (stored_identity-get db)

stored_identity-note_identity :
    (current : Option Text) (db : Db) → stored_identity (note_identity current db) ≡ current
unfolding note_identity upsert_values text_beq
stored_identity-note_identity none db =
    stored_identity-get (note_identity none db)
    ∙ get-delete_settings db.app_settings (oidc_env_identity ∷ []) oidc_env_identity
stored_identity-note_identity (some current) db =
    stored_identity-get (note_identity (some current) db)
    ∙ Dict.get-set_self db.app_settings oidc_env_identity current

abbrev is_kept : Text × Text → Bool
is_kept r = not (includes oidc_credential_keys r.0)

-- Credentials that were dropped are not there to be dropped again.
drop_saved-again :
    (env : Option OidcCredentials) (db : Db)
    → drop_saved env (drop_saved env db) ≡ drop_saved env db
unfolding drop_saved delete_settings
drop_saved-again none db = refl
drop_saved-again (some env) db =
    ap (λ m. record db { app_settings = m })
      (filter-all is_kept _ (All-filter_self is_kept db.app_settings))

drop_saved-noted :
    (env : Option OidcCredentials) (db : Db)
    → let db' = note_identity (Option.map identity_of env) (unlink_oidc (drop_saved env db)) in
      drop_saved env db' ≡ db'
unfolding drop_saved note_identity delete_settings upsert_values unlink_oidc text_beq
drop_saved-noted none db = refl
drop_saved-noted (some env) db =
    ap
      (λ m.
        record (note_identity (some (identity_of env)) (unlink_oidc (drop_saved (some env) db))) {
          app_settings = m;
        })
      (filter-all is_kept _ (
        Dict.All-set (λ r. is_kept r ≡ true) (filter is_kept db.app_settings) oidc_env_identity
          (identity_of env) refl (All-filter_self is_kept db.app_settings)))

-- What one boot leaves for the next one.
sync-again :
    (env : Option OidcCredentials) (db : Db)
    → drop_saved env db ≡ db
    → stored_identity db ≡ Option.map identity_of env
    → sync_oidc_env_identity env db ≡ db
unfolding sync_oidc_env_identity
sync-again env db dropped same =
    rw (dropped, (same_text_iff (stored_identity db) (Option.map identity_of env)).1 same) refl

saved_oidc-none :
    (db : Db)
    → Dict.get db.app_settings oidc_client_id ≡ none
    → (load_auth_config none db).oidc ≡ none
unfolding load_auth_config saved_oidc credentials_from text_beq
saved_oidc-none db h = simp (get-load_settings, h)

dropped-client_id :
    (env : OidcCredentials) (db : Db)
    → Dict.get (drop_saved (some env) db).app_settings oidc_client_id ≡ none
unfolding drop_saved text_beq
dropped-client_id env db = get-delete_settings db.app_settings oidc_credential_keys oidc_client_id

noted-client_id :
    (env : OidcCredentials) (db : Db)
    → Dict.get
        (note_identity
          (some (identity_of env))
          (unlink_oidc (drop_saved (some env) db))).app_settings
        oidc_client_id
      ≡ none
unfolding note_identity upsert_values unlink_oidc text_beq
noted-client_id env db =
    Dict.get-set (drop_saved (some env) db).app_settings oidc_env_identity (identity_of env)
      oidc_client_id
    ∙ dropped-client_id env db

accounts-drop_saved :
    (env : Option OidcCredentials) (db : Db)
    → ((drop_saved env db).accounts ≡ db.accounts) × ((drop_saved env db).sessions ≡ db.sessions)
unfolding drop_saved
accounts-drop_saved none db = (refl, refl)
accounts-drop_saved (some c) db = (refl, refl)

noted-IsUnlinked :
    (env : Option OidcCredentials) (current : Option Text) (db : Db)
    → IsUnlinked db (note_identity current (unlink_oidc (drop_saved env db)))
unfolding drop_saved note_identity unlink_oidc
noted-IsUnlinked none none db = unlink_oidc-settings db _
noted-IsUnlinked none (some t) db = unlink_oidc-settings db _
noted-IsUnlinked (some c) none db = unlink_oidc-settings db _
noted-IsUnlinked (some c) (some t) db = unlink_oidc-settings db _

-- A boot brings the database to the environment: a second boot with the same environment changes nothing, and the
-- noted identity is that of the environment. If it was so before, nobody is signed out; if not, the sessions of all
-- who are linked to the provider are gone, with the links. Under an environment that names a provider, the saved
-- credentials are gone too, so that no provider is left when it no longer does.
pub sync_oidc_env_identity-once :
    (env : Option OidcCredentials) (db : Db)
    → let db' = sync_oidc_env_identity env db in
      (sync_oidc_env_identity env db' ≡ db')
      × (stored_identity db' ≡ Option.map identity_of env)
      × (stored_identity db ≡ Option.map identity_of env
          → (db'.accounts ≡ db.accounts) × (db'.sessions ≡ db.sessions))
      × (stored_identity db ≢ Option.map identity_of env → IsUnlinked db db')
      × ((c : OidcCredentials) → env ≡ some c → (load_auth_config none db').oidc ≡ none)
unfolding sync_oidc_env_identity
sync_oidc_env_identity-once env db =
    let current = Option.map identity_of env in
    let dropped = drop_saved env db in
    let iff = same_text_iff (stored_identity dropped) current in
    let before = stored_identity-drop_saved env db in
    elim (Bool-cases (same_text (stored_identity dropped) current)) [
      | inl e ↦ rw e (
        sync-again env dropped (drop_saved-again env db) (iff.0 e),
        iff.0 e,
        λ _. accounts-drop_saved env db,
        λ ne. absurd (ne (sym before ∙ iff.0 e)),
        λ c h. rw h (saved_oidc-none (drop_saved (some c) db) (dropped-client_id c db)),
      )
      | inr e ↦ rw e (
        sync-again env (note_identity current (unlink_oidc dropped)) (drop_saved-noted env db)
            (stored_identity-note_identity current (unlink_oidc dropped)),
        stored_identity-note_identity current (unlink_oidc dropped),
        λ same. absurd (false≢true (sym e ∙ iff.1 (before ∙ same))),
        λ _. noted-IsUnlinked env current db,
        λ c h. rw h (
            saved_oidc-none
              (note_identity (some (identity_of c)) (unlink_oidc (drop_saved (some c) db)))
              (noted-client_id c db)),
      )
    ]
