-- ===== src/Accounts/Invites.antt =====
-- The use of an invite.
use rootprint.Common.{
  ℕ, ◌≤◌, Text, text_eq, ◌≡◌, ◌≢◌, refl, ap, ◌∙◌, not, Option, none, some, List, [], ◌∷◌, filter,
  find, arith,
}
use rootprint.Http.{Result, ok, fail, raise}
use rootprint.Accounts.{
  InviteToken, Db, commit, consumes, setup_password, consume_invite, use_invite,
}

consumes-filter :
    (now now' : ℕ) (token : Text) (invites : List InviteToken)
    → now ≤ now'
    → find (consumes now' token) (filter (λ i. not (consumes now token i)) invites) ≡ none
consumes-filter now now' token [] le = refl
consumes-filter now now' token (i ∷ invites) le =
    ground (arith, consumes-filter now now' token invites le)

consume_invite-none :
    (now : ℕ) (account_id hashed token : Text) (db : Db) (r : Result InviteToken) (user_id : Text)
    → find (consumes now token) db.invites ≡ none
    → (consume_invite now account_id hashed token db r).0 ≢ ok user_id
unfolding consume_invite use_invite
consume_invite-none now account_id hashed token db (ok i) user_id e = rw e (λ h. cc)
consume_invite-none now account_id hashed token db (fail f) user_id e = λ h. cc
consume_invite-none now account_id hashed token db (raise t) user_id e = λ h. cc

use_invite-invites :
    (now : ℕ) (account_id hashed token : Text) (db : Db) (o : Option InviteToken) (user_id : Text)
    → (commit db (use_invite now account_id hashed token db o)).0 ≡ ok user_id
    → (commit db (use_invite now account_id hashed token db o)).1.invites
      ≡ filter (λ i. not (consumes now token i)) db.invites
unfolding use_invite
use_invite-invites now account_id hashed token db none user_id e = cc
use_invite-invites now account_id hashed token db (some i) user_id e = refl

consume_invite-invites :
    (now : ℕ) (account_id hashed token : Text) (db : Db) (r : Result InviteToken) (user_id : Text)
    → (consume_invite now account_id hashed token db r).0 ≡ ok user_id
    → (consume_invite now account_id hashed token db r).1.invites
      ≡ filter (λ i. not (consumes now token i)) db.invites
unfolding consume_invite
consume_invite-invites now account_id hashed token db (ok i) user_id e =
    use_invite-invites now account_id hashed token db _ user_id e
consume_invite-invites now account_id hashed token db (fail f) user_id e = cc
consume_invite-invites now account_id hashed token db (raise t) user_id e = cc

-- A token that has set a password sets no other one, at that time or later, whatever account and
-- password are tried.
pub setup_password-once :
    (now now' : ℕ) (account_id account_id' hashed hashed' token : Text) (db : Db)
    (user_id user_id' : Text)
    → (setup_password now account_id hashed token db).0 ≡ ok user_id
    → now ≤ now'
    → (setup_password now' account_id' hashed' token
        (setup_password now account_id hashed token db).1).0
      ≢ ok user_id'
unfolding setup_password
setup_password-once now now' account_id account_id' hashed hashed' token db user_id user_id' e le =
    consume_invite-none now' account_id' hashed' token _ _ user_id' (
      ap (find (consumes now' token))
        (consume_invite-invites now account_id hashed token db _ user_id e)
      ∙ consumes-filter now now' token db.invites le)
