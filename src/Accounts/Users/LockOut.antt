-- ===== src/Accounts/Users/LockOut.antt =====
-- The reset of a password.
use rootprint.Common.{
  ap, ◌+◌, ◌*◌, ==-refl, All-filter_self, filter-all, ℕ, Text, text_eq, bool_eq, ◌==◌, ◌≡◌, refl,
  Bool, true, false, not, ◌&&◌, Bool-cases, inl, inr, none, some, List, [], ◌∷◌, any, filter, map,
  arith,
}
use rootprint.Http.{ok}
use rootprint.Accounts.{
  Account, Session, InviteToken, Db, invite_expiry_hours, is_credential, is_human,
  replace_invite_token, insert_invite,
}
use rootprint.Accounts.Users.{
  reset_password, lock_out, clear_password, ensure_human_user, build_invite_url,
}

abbrev pub has_password : Account → Bool
has_password a = elim a.password [ none ↦ false | some p ↦ true ]

filter-none :
    (user_id : Text) (sessions : List Session)
    → any (λ s. s.user_id == user_id) (filter (λ s. not (s.user_id == user_id)) sessions) ≡ false
filter-none user_id [] = refl
filter-none user_id (s ∷ sessions) = ground (arith, filter-none user_id sessions)

abbrev pub new_invite : ℕ → Text → Text → InviteToken
new_invite now token user_id = record {
  user_id = user_id;
  token = token;
  expires_at = now + invite_expiry_hours * 60 * 60 * 1000;
}

-- What a reset has done to the user: no session and no password are left, and one invite, the new one. The
-- accounts at other providers, and all that belongs to other users, are as before.
pub record IsReset (now : ℕ) (token user_id : Text) (db db' : Db) : Type 0 where
  pub no_session : any (λ s. s.user_id == user_id) db'.sessions ≡ false
  pub no_password : any (λ a. is_credential user_id a && has_password a) db'.accounts ≡ false
  pub invited : filter (λ i. i.user_id == user_id) db'.invites ≡ new_invite now token user_id ∷ []
  pub other_sessions :
      filter (λ s. not (s.user_id == user_id)) db'.sessions
      ≡ filter (λ s. not (s.user_id == user_id)) db.sessions
  pub other_accounts :
      filter (λ a. not (is_credential user_id a)) db'.accounts
      ≡ filter (λ a. not (is_credential user_id a)) db.accounts
  pub other_invites :
      filter (λ i. not (i.user_id == user_id)) db'.invites
      ≡ filter (λ i. not (i.user_id == user_id)) db.invites
  pub users : db'.users ≡ db.users

module _ {A : Type 0} (p : A → Bool) where
  filter-others :
      (xs : List A)
      → filter (λ x. not (p x)) (filter (λ x. not (p x)) xs) ≡ filter (λ x. not (p x)) xs
  filter-others xs =
      filter-all (λ x. not (p x)) (filter (λ x. not (p x)) xs) (All-filter_self (λ x. not (p x)) xs)

  filter-gone : (xs : List A) → filter p (filter (λ x. not (p x)) xs) ≡ []
  filter-gone [] = refl
  filter-gone (x ∷ xs) = ground (arith, filter-gone xs)

clear-others :
    (user_id : Text) (accounts : List Account)
    → filter (λ a. not (is_credential user_id a)) (map (clear_password user_id) accounts)
      ≡ filter (λ a. not (is_credential user_id a)) accounts
clear-others user_id [] = refl
clear-others user_id (a ∷ accounts) = elim (Bool-cases (is_credential user_id a)) [
  | inl c ↦ rw (c, c) (clear-others user_id accounts)
  | inr o ↦ rw (o, o) (ap (λ rest. a ∷ rest) (clear-others user_id accounts))
]

clear-none :
    (user_id : Text) (accounts : List Account)
    → any (λ a. is_credential user_id a && has_password a) (map (clear_password user_id) accounts)
      ≡ false
clear-none user_id [] = refl
clear-none user_id (a ∷ accounts) = ground (arith, clear-none user_id accounts)

-- A reset that succeeds was of another user than the administrator, and returns the address of a new invite, which
-- is the only one of that user and is valid for the full time. It ends the sessions of the user and takes the
-- password away; accounts of the user at other providers stay, and so does all that belongs to other users.
pub reset_password-IsReset :
    (origin : Text) (disabled : Bool) (now : ℕ) (token admin_id user_id : Text) (db : Db)
    (url : Text)
    → (reset_password origin disabled now token admin_id user_id db).0 ≡ ok url
    → IsReset now token user_id db (reset_password origin disabled now token admin_id user_id db).1
      × (url ≡ build_invite_url origin token)
      × ((user_id == admin_id) ≡ false)
unfolding reset_password ensure_human_user replace_invite_token insert_invite lock_out
reset_password-IsReset origin disabled now token admin_id user_id db url e =
    elim (Bool-cases (user_id == admin_id)) [
      | inl self ↦ cc (rw self at e)
      | inr other ↦ elim (Bool-cases disabled) [
        | inl off ↦ cc (rw (other, off) at e)
        | inr on ↦ elim (Bool-cases (any (is_human user_id) db.users)) [
          | inr missing ↦ cc (rw (other, on, missing) at e)
          | inl found ↦
              elim (Bool-cases (
                any (λ j. j.token == token)
                  (filter (λ i. not (i.user_id == user_id)) db.invites))) [
                    | inl taken ↦ cc (rw (other, on, found, taken) at e)
                    | inr free ↦
                        rw (other, on, found, free)
                          (
                            record {
                              no_session = filter-none user_id db.sessions;
                              no_password = clear-none user_id db.accounts;
                              invited = rw (==-refl user_id) (
                                  ap (λ is. new_invite now token user_id ∷ is)
                                    (filter-gone (λ i. i.user_id == user_id) db.invites));
                              other_sessions =
                                  filter-others (λ s. s.user_id == user_id) db.sessions;
                              other_accounts = clear-others user_id db.accounts;
                              other_invites =
                                  rw (==-refl user_id)
                                    (filter-others (λ i. i.user_id == user_id) db.invites);
                              users = refl;
                            },
                            cc (rw (other, on, found, free) at e),
                            refl,
                          )
                  ]
        ]
      ]
    ]
