-- ===== src/Accounts.antt =====
-- Users, their credentials and invites: apps/api/src/services/auth.service.ts and user.service.ts, and the
-- accounts of service-account.service.ts. A table is the list of its rows; a statement acts on the rows
-- that its WHERE names, an insert raises 23505 where it repeats a unique column, and the rows of a
-- deleted user go with it, as apps/api/src/db/schema.ts says. Times are milliseconds.
pub mod Users
pub mod Invites
pub mod Admins
use rootprint.Common.{
  ℕ, ◌+◌, ◌*◌, Text, codes, text_eq, nat_eq, bool_eq, ◌==◌, Bool, true, false, not, ◌&&◌, ◌||◌,
  Option, none, some, List, [], ◌∷◌, if◌then◌else◌, any, filter, find, map, ltb,
}
use rootprint.Http.{
  Result, ok, fail, raise, unique_violation, bad_request, conflict, with_unique_violation,
}

pub data UserRole : Type 0 where
  admin user_role : UserRole

pub record User : Type 0 where
  pub id : Text
  pub email : Text
  pub name : Text
  pub role : Option UserRole
  pub email_verified : Bool
  pub is_service_account : Bool

pub record Account : Type 0 where
  pub id : Text
  pub account_id : Text
  pub provider_id : Text
  pub user_id : Text
  pub password : Option Text

pub record Session : Type 0 where
  pub token : Text
  pub user_id : Text

pub record InviteToken : Type 0 where
  pub user_id : Text
  pub token : Text
  pub expires_at : ℕ

pub record Db : Type 0 where
  pub users : List User
  pub accounts : List Account
  pub sessions : List Session
  pub invites : List InviteToken
  pub settings : List Text

abbrev pub credential : Text
credential = codes "credential"

abbrev pub first_admin_claimed_key : Text
first_admin_claimed_key = codes "first_admin_claimed"

pub invite_expiry_hours : ℕ
invite_expiry_hours = 48

-- A transaction that throws leaves the database as it was.
abbrev pub commit : {A : Type 0} → Db → Result A × Db → Result A × Db
commit db (ok a, db') = (ok a, db')
commit db (fail e, db') = (fail e, db)
commit db (raise t, db') = (raise t, db)

-- The next statement runs where the last one did not throw.
infixl 5 ◌then_do◌
abbrev pub ◌then_do◌ : {A B : Type 0} → Result A × Db → (A → Db → Result B × Db) → Result B × Db
(ok a, db) then_do f = f a db
(fail e, db) then_do f = (fail e, db)
(raise t, db) then_do f = (raise t, db)

abbrev pub is_human : Text → User → Bool
is_human user_id u = u.id == user_id && not u.is_service_account

abbrev pub is_service : Text → User → Bool
is_service user_id u = u.id == user_id && u.is_service_account

abbrev pub is_credential : Text → Account → Bool
is_credential user_id a = a.user_id == user_id && a.provider_id == credential

pub insert_user : User → Db → Result (Unit {0}) × Db
insert_user u db =
    if any (λ v. v.id == u.id || v.email == u.email) db.users
    then (raise unique_violation, db)
    else (ok tt, record db { users = u ∷ db.users })

pub insert_invite : InviteToken → Db → Result (Unit {0}) × Db
insert_invite i db =
    if any (λ j. j.token == i.token) db.invites
    then (raise unique_violation, db)
    else (ok tt, record db { invites = i ∷ db.invites })

-- Deletes the users that pass the test, with what refers to them.
pub delete_users : (User → Bool) → Db → Db
delete_users p db =
    let gone : Text → Bool = λ user_id. any (λ u. p u && u.id == user_id) db.users in
    record {
      users = filter (λ u. not (p u)) db.users;
      accounts = filter (λ a. not (gone a.user_id)) db.accounts;
      sessions = filter (λ s. not (gone s.user_id)) db.sessions;
      invites = filter (λ i. not (gone i.user_id)) db.invites;
      settings = db.settings;
    }

pub is_setup_completed : Db → Bool
is_setup_completed db = any (λ k. k == first_admin_claimed_key) db.settings

pub claim_first_admin : Db → Bool × Db
unfolding is_setup_completed
claim_first_admin db =
    if is_setup_completed db
    then (false, db)
    else (true, record db { settings = first_admin_claimed_key ∷ db.settings })

pub record NewAdmin : Type 0 where
  pub name : Text
  pub email : Text

abbrev insert_admin : Text → Text → Text → NewAdmin → Db → Result Text × Db
insert_admin user_id account_id hashed input db =
    insert_user
      (record {
        id = user_id;
        email = input.email;
        name = input.name;
        role = some admin;
        email_verified = true;
        is_service_account = false;
      })
      db
    then_do λ _ db'. (
      ok user_id,
      record db' {
        accounts =
            record {
              id = account_id;
              account_id = user_id;
              provider_id = credential;
              user_id = user_id;
              password = some hashed;
            }
            ∷ db'.accounts;
      },
    )

abbrev claim_and_insert : Text → Text → Text → NewAdmin → Bool × Db → Result Text × Db
claim_and_insert user_id account_id hashed input (true, db) =
    insert_admin user_id account_id hashed input db
claim_and_insert user_id account_id hashed input (false, db) =
    (fail (conflict (codes "Admin already exists") (codes "CONFLICT") []), db)

abbrev pub rename_violation : {A : Type 0} → Text → Result A × Db → Result A × Db
rename_violation message (r, db) = (with_unique_violation message (codes "CONFLICT") r, db)

-- `user_id` and `account_id` are drawn, `hashed` is the hash of the password.
unfoldable pub create_first_admin : Text → Text → Text → NewAdmin → Db → Result Text × Db
unfolding claim_first_admin insert_user
create_first_admin user_id account_id hashed input db =
    rename_violation (codes "Email already in use")
      (commit db (claim_and_insert user_id account_id hashed input (claim_first_admin db)))

-- `token` is drawn.
unfoldable pub replace_invite_token : ℕ → Text → Text → Db → Result Text × Db
unfolding insert_invite
replace_invite_token now token user_id db =
    insert_invite
      (record {
        user_id = user_id;
        token = token;
        expires_at = now + invite_expiry_hours * 60 * 60 * 1000;
      })
      (record db { invites = filter (λ i. not (i.user_id == user_id)) db.invites })
    then_do λ _ db'. (ok token, db')

pub create_invite_token : ℕ → Text → Text → Db → Result Text × Db
unfolding replace_invite_token
create_invite_token now token user_id db = commit db (replace_invite_token now token user_id db)

-- The invite that the join of the two tables finds.
abbrev pub joins : Db → Text → InviteToken → Bool
joins db token i =
    i.token == token && any (λ u. u.id == i.user_id && not u.is_service_account) db.users

pub validate_invite_token : ℕ → Text → Db → Result InviteToken
validate_invite_token now token db = elim (find (joins db token) db.invites) [
  | none ↦ fail (bad_request (codes "Invalid invite token") (codes "INVITE_INVALID") [])
  | some i ↦
      if ltb i.expires_at now
      then fail (bad_request (codes "Invite token expired") (codes "INVITE_EXPIRED") [])
      else ok i
]

abbrev set_verified : Text → User → User
set_verified user_id u = if u.id == user_id then record u { email_verified = true } else u

abbrev pub consumes : ℕ → Text → InviteToken → Bool
consumes now token i = i.token == token && ltb now i.expires_at

abbrev set_password : Text → Text → Text → Db → Db
set_password account_id hashed user_id db = record db {
  accounts =
      record {
        id = account_id;
        account_id = user_id;
        provider_id = credential;
        user_id = user_id;
        password = some hashed;
      }
      ∷ filter (λ a. not (is_credential user_id a)) db.accounts;
  users = map (set_verified user_id) db.users;
}

pub use_invite : ℕ → Text → Text → Text → Db → Option InviteToken → Result Text × Db
use_invite now account_id hashed token db none =
    (fail (bad_request (codes "Invalid invite token") (codes "INVITE_INVALID") []), db)
use_invite now account_id hashed token db (some consumed) = (
  ok consumed.user_id,
  set_password account_id hashed consumed.user_id
      (record db { invites = filter (λ i. not (consumes now token i)) db.invites }),
)

-- The transaction of `setup_password`, where the invite was valid.
pub consume_invite : ℕ → Text → Text → Text → Db → Result InviteToken → Result Text × Db
unfolding use_invite
consume_invite now account_id hashed token db (ok i) =
    commit db (use_invite now account_id hashed token db (find (consumes now token) db.invites))
consume_invite now account_id hashed token db (fail e) = (fail e, db)
consume_invite now account_id hashed token db (raise t) = (raise t, db)

unfoldable pub setup_password : ℕ → Text → Text → Text → Db → Result Text × Db
unfolding validate_invite_token consume_invite
setup_password now account_id hashed token db =
    consume_invite now account_id hashed token db (validate_invite_token now token db)
