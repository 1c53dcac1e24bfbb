-- ===== src/Guards/Roles.antt =====
-- What a personal key opens.
use rootprint.Common.{
  ℕ, ◌≡◌, refl, inl, inr, subst, Text, codes, text_eq, ◌==◌, ==-sound, true, false, Bool-cases,
  Option, none, some, List, [], ◌∷◌, find, any, Option-cases, arith,
}
use rootprint.Http.{Result, ok, fail, raise, forbidden, unauthorized}
use rootprint.Auth.{extract_bearer_token}
use rootprint.Accounts.{User, user_role}
use rootprint.Guards.{
  SessionUser, KeyCheck, PersonalKey, Actor, use_key, refuse_key, check_personal_key, LastActive,
  require_user_or_personal_key, require_admin,
}

find-owner :
    (users : List User) (id : Text) (owner : User)
    → find (λ u. u.id == id) users ≡ some owner
    → (owner.id ≡ id) × (any (λ u. u.id == id) users ≡ true)
find-owner [] id owner h = cc
find-owner (u ∷ users) id owner h = ground (arith, find-owner users id owner, ==-sound u.id id)

not_refused : (code : Option Text) (a : Actor) → ¬ (refuse_key code ≡ ok a)
not_refused code a h = ground arith

-- What lets a request with the token act as `actor`.
pub record IsOwnKey (verify : Text → Result KeyCheck) (users : List User) (bearer : Text)
    (actor : Actor) : Type 0 where
  pub check : KeyCheck
  pub key : PersonalKey
  pub checked : verify bearer ≡ ok check
  pub valid : check.valid ≡ true
  pub found : check.key ≡ some key
  pub acts : actor.1 ≡ some key.id
  pub owner : actor.0.id ≡ key.reference_id
  pub exists : any (λ u. u.id == key.reference_id) users ≡ true
  pub no_admin : require_admin actor.0 ≡ fail (forbidden (codes "Forbidden") (codes "FORBIDDEN"))

module _ (verify : Text → Result KeyCheck) (users : List User) (bearer : Text) (actor : Actor) where
  use_key-IsOwnKey :
      (check : KeyCheck) (key : PersonalKey)
      → verify bearer ≡ ok check
      → check.valid ≡ true
      → check.key ≡ some key
      → use_key users key ≡ ok actor
      → IsOwnKey verify users bearer actor
  unfolding require_admin
  use_key-IsOwnKey check key e v k h = owned (find (λ u. u.id == key.reference_id) users) refl h
    where
      owned :
          (o : Option User)
          → find (λ u. u.id == key.reference_id) users ≡ o
          → ◌≡◌ {A = Result Actor}
              (elim o [
                | none ↦
                    fail (unauthorized (codes "Invalid API key") (codes "PERSONAL_KEY_INVALID"))
                | some owner ↦ ok (record { id = owner.id; role = some user_role }, some key.id)
              ])
              (ok actor)
          → IsOwnKey verify users bearer actor
      owned none f h = cc
      owned (some owner) f h =
          let (same, exists) = find-owner users key.reference_id owner f in
          let is : (record { id = owner.id; role = some user_role }, some key.id) ≡ actor = cc h in
          subst (IsOwnKey verify users bearer) is (record {
            check = check;
            key = key;
            checked = e;
            valid = v;
            found = k;
            acts = refl;
            owner = same;
            exists = exists;
            no_admin = refl;
          })

  check-IsOwnKey :
      (r : Result KeyCheck)
      → verify bearer ≡ r
      → check_personal_key users r ≡ ok actor
      → IsOwnKey verify users bearer actor
  unfolding check_personal_key
  check-IsOwnKey (fail e) eq h = cc
  check-IsOwnKey (raise t) eq h = cc
  check-IsOwnKey (ok check) eq h = elim (Bool-cases check.valid) [
    | inl v ↦ elim (Option-cases check.key) [
      | inl none_found ↦ absurd (not_refused check.error_code actor (rw (v, none_found) at h))
      | inr (key, k) ↦ use_key-IsOwnKey check key eq v k (rw (v, k) at h)
    ]
    | inr v ↦ absurd (not_refused check.error_code actor (rw v at h))
  ]

  -- A request with a bearer token that passes the guard acts as the owner of a valid key, who is still a user, and
  -- notes that key; it never acts as an administrator, so that `requireAdmin` refuses it, whoever owns the key, and it
  -- leaves the times of the last activity as they were.
  pub require_user_or_personal_key-IsOwnKey :
      (now : ℕ) (authorization : Option Text) (session : Result (Option SessionUser))
      (seen : LastActive)
      → extract_bearer_token authorization ≡ some bearer
      → (require_user_or_personal_key verify users now authorization session seen).0 ≡ ok actor
      → IsOwnKey verify users bearer actor
        × ((require_user_or_personal_key verify users now authorization session seen).1
            ≡ (false, seen))
  unfolding require_user_or_personal_key
  require_user_or_personal_key-IsOwnKey now authorization session seen e h = (
    check-IsOwnKey (verify bearer) refl (rw (e, require_user_or_personal_key) at h),
    rw (e, require_user_or_personal_key) refl,
  )
