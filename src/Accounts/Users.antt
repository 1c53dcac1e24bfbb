-- ===== src/Accounts/Users.antt =====
-- What administrators do to users and service accounts: apps/api/src/services/user.service.ts and
-- service-account.service.ts.
pub mod LockOut
use rootprint.Common.{
  ℕ, Text, codes, text_eq, bool_eq, ◌==◌, Bool, true, false, not, Option, none, some, [], ◌++◌,
  if◌then◌else◌, any, filter, find, map, ltb,
}
use mathlib.Core.Option
use rootprint.Http.{Result, ok, fail, bad_request, not_found}
use rootprint.Accounts.{
  UserRole, user_role, User, Account, InviteToken, Db, commit, ◌then_do◌, is_human, is_service,
  is_credential, insert_user, delete_users, rename_violation, replace_invite_token,
  create_invite_token,
}

-- The columns that the services only pass on (dates, image, tokens of other providers) are left out.
pub data UserStatus : Type 0 where
  active pending expired : UserStatus

pub record UserView : Type 0 where
  pub id : Text
  pub name : Text
  pub email : Text
  pub role : Option UserRole
  pub status : UserStatus
  pub invite_url : Option Text
  pub invite_expires_at : Option ℕ

abbrev user_not_found : {A : Type 0} → Result A
user_not_found = fail (not_found (codes "User not found") (codes "NOT_FOUND"))

abbrev pub clear_password : Text → Account → Account
clear_password user_id a = if is_credential user_id a then record a { password = none } else a

-- Ends every session of the user and takes its password away.
pub lock_out : Text → Db → Db
lock_out user_id db = record db {
  sessions = filter (λ s. not (s.user_id == user_id)) db.sessions;
  accounts = map (clear_password user_id) db.accounts;
}

pub ensure_human_user : Text → Db → Result (Unit {0}) × Db
ensure_human_user user_id db =
    if any (is_human user_id) db.users then (ok tt, db) else (user_not_found, db)

pub record NewUser : Type 0 where
  pub email : Text
  pub name : Text
  pub role : UserRole

-- `origin` is the configured address of the server.
module _ (origin : Text) where
  pub build_invite_url : Text → Text
  build_invite_url token = origin ++ codes "/auth/setup?token=" ++ token

  pub status_of : ℕ → Option InviteToken → UserStatus
  status_of now none = active
  status_of now (some invite) = if ltb invite.expires_at now then expired else pending

  pub to_user : ℕ → User → Option InviteToken → UserView
  unfolding build_invite_url status_of
  to_user now u invite = record {
    id = u.id;
    name = u.name;
    email = u.email;
    role = u.role;
    status = status_of now invite;
    invite_url = Option.map (λ i. build_invite_url i.token) invite;
    invite_expires_at = Option.map (λ i. i.expires_at) invite;
  }

  pub get_user : ℕ → Text → Db → Result UserView
  unfolding to_user
  get_user now user_id db = elim (find (is_human user_id) db.users) [
    | none ↦ user_not_found
    | some u ↦ ok (to_user now u (find (λ i. i.user_id == user_id) db.invites))
  ]

  -- The user's id and the invite's token are drawn.
  pub create_user : ℕ → Text → Text → NewUser → Db → Result Text × Db
  unfolding build_invite_url
  create_user now user_id token data_of db =
      rename_violation (codes "Email already in use") (
        commit db (
          insert_user
            (record {
              id = user_id;
              email = data_of.email;
              name = data_of.name;
              role = some data_of.role;
              email_verified = false;
              is_service_account = false;
            })
            db
          then_do λ _ db'. replace_invite_token now token user_id db'))
      then_do λ token' db'. (ok (build_invite_url token'), db')

  pub reissue_invite : ℕ → Text → Text → Db → Result Text × Db
  unfolding ensure_human_user build_invite_url
  reissue_invite now token user_id db = ensure_human_user user_id db then_do λ _ db'.
      create_invite_token now token user_id db' then_do λ token' db''.
      (ok (build_invite_url token'), db'')

  pub remove_user : Text → Text → Db → Result (Unit {0}) × Db
  remove_user admin_id user_id db =
      if user_id == admin_id
      then (
        fail (bad_request (codes "Cannot delete your own account") (codes "BAD_REQUEST") []),
        db,
      )
      else if any (is_human user_id) db.users
      then (ok tt, delete_users (is_human user_id) db)
      else (user_not_found, db)

  abbrev set_role : Text → UserRole → User → User
  set_role user_id role u = if is_human user_id u then record u { role = some role } else u

  pub set_user_role : Text → Text → UserRole → Db → Result (Unit {0}) × Db
  set_user_role admin_id user_id role db =
      if user_id == admin_id
      then (fail (bad_request (codes "Cannot change your own role") (codes "BAD_REQUEST") []), db)
      else if any (is_human user_id) db.users
      then (ok tt, record db { users = map (set_role user_id role) db.users })
      else (user_not_found, db)

  unfoldable pub reset_password : Bool → ℕ → Text → Text → Text → Db → Result Text × Db
  unfolding ensure_human_user build_invite_url lock_out
  reset_password password_sign_in_disabled now token admin_id user_id db =
      if user_id == admin_id
      then (
        fail (bad_request (codes "Cannot reset your own password") (codes "BAD_REQUEST") []),
        db,
      )
      else if password_sign_in_disabled
      then (
        fail (
            bad_request (codes "Password sign-in is disabled") (codes "PASSWORD_SIGN_IN_DISABLED")
              []),
        db,
      )
      else (commit db (
            ensure_human_user user_id db then_do λ _ db'.
            replace_invite_token now token user_id (lock_out user_id db'))
          then_do λ token' db'. (ok (build_invite_url token'), db'))

-- `hex` is drawn for the address.
pub create_service_account : Text → Text → Text → Db → Result Text × Db
create_service_account id hex name db =
    insert_user
      (record {
        id = id;
        email = codes "svc-" ++ hex ++ codes "@service.local";
        name = name;
        role = some user_role;
        email_verified = true;
        is_service_account = true;
      })
      db
    then_do λ _ db'. (ok id, db')

pub remove_service_account : Text → Db → Result (Unit {0}) × Db
remove_service_account user_id db =
    if any (is_service user_id) db.users
    then (ok tt, delete_users (is_service user_id) db)
    else (fail (not_found (codes "Service account not found") (codes "NOT_FOUND")), db)
