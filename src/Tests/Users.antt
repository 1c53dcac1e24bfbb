-- ===== src/Tests/Users.antt =====
-- An invited user sets a password, is reset, and nobody claims the installation twice.
use rootprint.Common.{
  ◌≡◌, ◌≢◌, refl, codes, text_beq, bool_beq, text_eq, ◌==◌, false, some, [], ◌∷◌, arith,
}
use rootprint.Http.{ok, with_unique_violation}
use rootprint.Accounts.{
  Db, User, user_role, NewAdmin, setup_password, create_first_admin, replace_invite_token,
}
use rootprint.Accounts.Users.{reset_password, build_invite_url}
use rootprint.Accounts.Invites.{setup_password-once}
use rootprint.Accounts.Users.LockOut.{IsReset, reset_password-IsReset}

abbrev mia : User
mia = record {
  id = codes "u1";
  email = codes "mia@example.org";
  name = codes "Mia";
  role = some user_role;
  email_verified = false;
  is_service_account = false;
}

abbrev invited : Db
invited = record {
  users = mia ∷ [];
  accounts = [];
  sessions = record { token = codes "s1"; user_id = codes "u1" } ∷ [];
  invites = record { user_id = codes "u1"; token = codes "t1"; expires_at = 100 } ∷ [];
  settings = [];
}

setup_password_ok :
    (setup_password 5 (codes "a1") (codes "hash") (codes "t1") invited).0 ≡ ok (codes "u1")
unfolding setup_password text_beq bool_beq
setup_password_ok = refl

setup_password-once_example :
    (setup_password 6
      (codes "a2")
      (codes "other")
      (codes "t1")
      (setup_password 5 (codes "a1") (codes "hash") (codes "t1") invited).1).0
    ≢ ok (codes "u1")
setup_password-once_example =
    setup_password-once 5 6 (codes "a1") (codes "a2") (codes "hash") (codes "other") (codes "t1")
      invited (codes "u1") (codes "u1") setup_password_ok (omega arith)

reset_password_ok :
    (reset_password (codes "http://x") false 9 (codes "t2") (codes "u0") (codes "u1") invited).0
    ≡ ok (codes "http://x/auth/setup?token=t2")
unfolding reset_password text_beq replace_invite_token
reset_password_ok = refl

reset_password-IsReset_example :
    IsReset 9
      (codes "t2")
      (codes "u1")
      invited
      (reset_password (codes "http://x") false 9 (codes "t2") (codes "u0") (codes "u1") invited).1
    × (codes "http://x/auth/setup?token=t2" ≡ build_invite_url (codes "http://x") (codes "t2"))
    × ((codes "u1" == codes "u0") ≡ false)
reset_password-IsReset_example =
    reset_password-IsReset (codes "http://x") false 9 (codes "t2") (codes "u0") (codes "u1") invited
      (codes "http://x/auth/setup?token=t2") reset_password_ok

abbrev root : NewAdmin
root = record { name = codes "Root"; email = codes "root@example.org" }

create_first_admin_ok :
    (create_first_admin (codes "u2") (codes "a3") (codes "hash") root invited).0 ≡ ok (codes "u2")
unfolding create_first_admin text_beq with_unique_violation
create_first_admin_ok = refl
