-- ===== src/Guards.antt =====
-- The guards of the routes: require-api-key.ts, require-user.ts, require-user-or-personal-key.ts and
-- require-admin.ts of apps/api/src/middleware. A guard returns what it puts into the context of the request, or the
-- error that it throws. The sessions and personal keys are those of the authentication library, whose
-- answers are arguments; times are milliseconds.
pub mod Ingest
pub mod Roles
pub mod LastActive
use rootprint.Common.{
  ℕ, ◌-◌, Text, codes, text_eq, ◌==◌, Bool, true, false, not, ◌||◌, Option, none, some, List,
  if◌then◌else◌, find, leb,
}
use mathlib.Core.Option
use rootprint.Common.Dict
use rootprint.Common.Dict.{Dict}
use rootprint.Http.{Result, ok, fail, raise, unauthorized, forbidden, internal}
use rootprint.Auth.{extract_bearer_token}
use rootprint.Accounts.{UserRole, admin, user_role, User}
use rootprint.Keys.{
  KeyTable, Keyring, VerifiedApiKey, VerifyApiKeyResult, verified, unknown_key, verify_api_key,
}

abbrev pub of_answer : VerifyApiKeyResult → Result VerifiedApiKey
of_answer (verified key) = ok key
of_answer unknown_key =
    fail (forbidden (codes "Invalid ingest token") (codes "INGEST_INVALID_TOKEN"))

module _ (table : KeyTable) where
  pub check_ingest_key : ℕ → Option Text → Keyring table → Result VerifiedApiKey × Keyring table
  unfolding verify_api_key
  check_ingest_key now none s =
      (fail (unauthorized (codes "Missing bearer token") (codes "INGEST_MISSING_BEARER")), s)
  check_ingest_key now (some bearer) s =
      let (r, s') = verify_api_key table now bearer s in (of_answer r, s')

  unfoldable pub require_ingest_key :
      ℕ → Option Text → Keyring table → Result VerifiedApiKey × Keyring table
  unfolding check_ingest_key extract_bearer_token
  require_ingest_key now authorization = check_ingest_key now (extract_bearer_token authorization)

pub record SessionUser : Type 0 where
  pub id : Text
  pub role : Option UserRole

-- `lastActiveMap`
abbrev pub LastActive : Type 0
LastActive = Dict Text ℕ

abbrev pub last_active_throttle_ms : ℕ
last_active_throttle_ms = 300000

abbrev pub last_seen : LastActive → Text → ℕ
unfolding Dict.get
last_seen seen user_id = Option.get_or (Dict.get seen user_id) 0

-- Whether the user's row is updated, and the map after it.
unfoldable pub bump_last_active : ℕ → Text → LastActive → Bool × LastActive
unfolding Dict.get Dict.set
bump_last_active now user_id seen =
    if leb (now - last_seen seen user_id) last_active_throttle_ms
    then (false, seen)
    else (true, Dict.set seen user_id now)

abbrev is_some {ℓ} : {A : Type ℓ} → Option A → Bool
is_some none = false
is_some (some a) = true

-- `getSession` gives the session, or none, or throws.
pub session_user : Option Text → Result (Option SessionUser) → Result SessionUser
unfolding extract_bearer_token
session_user authorization (fail e) =
    fail (internal (codes "Session validation failed") (codes "INTERNAL"))
session_user authorization (raise t) =
    fail (internal (codes "Session validation failed") (codes "INTERNAL"))
session_user authorization (ok (some user)) = ok user
session_user authorization (ok none) =
    if is_some (extract_bearer_token authorization)
    then fail (forbidden (codes "This route requires a session") (codes "SESSION_REQUIRED"))
    else fail (unauthorized (codes "Unauthorized") (codes "UNAUTHORIZED"))

-- With the session comes the note that its user is active.
pub note_user : ℕ → LastActive → Result SessionUser → Result SessionUser × (Bool × LastActive)
unfolding bump_last_active
note_user now seen (ok user) = (ok user, bump_last_active now user.id seen)
note_user now seen (fail e) = (fail e, (false, seen))
note_user now seen (raise t) = (raise t, (false, seen))

unfoldable pub require_user :
    ℕ
    → Option Text
    → Result (Option SessionUser)
    → LastActive
    → Result SessionUser × (Bool × LastActive)
unfolding session_user note_user
require_user now authorization session seen =
    note_user now seen (session_user authorization session)

pub record PersonalKey : Type 0 where
  pub id : Text
  pub reference_id : Text

-- What `verifyApiKey` of the library answers: `valid`, `error?.code` and `key`.
pub record KeyCheck : Type 0 where
  pub valid : Bool
  pub error_code : Option Text
  pub key : Option PersonalKey

abbrev is_code : Option Text → Text → Bool
is_code none c = false
is_code (some d) c = d == c

abbrev pub refuse_key : {A : Type 0} → Option Text → Result A
refuse_key error_code =
    if is_code error_code (codes "KEY_DISABLED") || is_code error_code (codes "KEY_NOT_FOUND")
    then fail (forbidden (codes "API key is not allowed") (codes "PERSONAL_KEY_FORBIDDEN"))
    else fail (unauthorized (codes "Invalid API key") (codes "PERSONAL_KEY_INVALID"))

-- The session, and the key that acts for the user.
abbrev pub Actor : Type 0
Actor = SessionUser × Option Text

abbrev pub use_key : List User → PersonalKey → Result Actor
use_key users key = elim (find (λ u. u.id == key.reference_id) users) [
  | none ↦ fail (unauthorized (codes "Invalid API key") (codes "PERSONAL_KEY_INVALID"))
  | some owner ↦ ok (record { id = owner.id; role = some user_role }, some key.id)
]

pub check_personal_key : List User → Result KeyCheck → Result Actor
check_personal_key users (fail e) =
    fail (internal (codes "API key verification failed") (codes "INTERNAL"))
check_personal_key users (raise t) =
    fail (internal (codes "API key verification failed") (codes "INTERNAL"))
check_personal_key users (ok check) =
    if check.valid
    then elim check.key [ none ↦ refuse_key check.error_code | some key ↦ use_key users key ]
    else refuse_key check.error_code

abbrev without_key : Result SessionUser → Result Actor
without_key (ok user) = ok (user, none)
without_key (fail e) = fail e
without_key (raise t) = raise t

-- `verify` is the library's check of a key and of the permissions that the route wants.
unfoldable pub require_user_or_personal_key :
    (Text → Result KeyCheck)
    → List User
    → ℕ
    → Option Text
    → Result (Option SessionUser)
    → LastActive
    → Result Actor × (Bool × LastActive)
unfolding extract_bearer_token require_user check_personal_key
require_user_or_personal_key verify users now authorization session seen =
    elim (extract_bearer_token authorization) [
      | none ↦
          let (r, noted) = require_user now authorization session seen in (without_key r, noted)
      | some bearer ↦ (check_personal_key users (verify bearer), (false, seen))
    ]

abbrev is_admin : Option UserRole → Bool
is_admin none = false
is_admin (some admin) = true
is_admin (some user_role) = false

unfoldable pub require_admin : SessionUser → Result (Unit {0})
require_admin user =
    if is_admin user.role then ok tt else fail (forbidden (codes "Forbidden") (codes "FORBIDDEN"))
