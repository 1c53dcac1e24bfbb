-- ===== src/Accounts/Admins.antt =====
-- The creation of the first administrator.
use rootprint.Common.{
  Text, codes, text_eq, text_beq, ◌==◌, ◌≡◌, refl, true, ◌||◌, Bool-cases, inl, inr, [], any,
}
use rootprint.Http.{ok, fail, raise, conflict, HttpError, Thrown, with_unique_violation}
use rootprint.Accounts.{
  NewAdmin, Db, is_setup_completed, claim_first_admin, insert_user, create_first_admin,
}

fail-ok : {A : Type 0} (e : HttpError) (v : A) (P : Type 0) → fail e ≡ ok v → P
fail-ok e v P h = cc

raise-ok : {A : Type 0} (t : Thrown) (v : A) (P : Type 0) → raise t ≡ ok v → P
raise-ok t v P h = cc

create_first_admin-claimed :
    (user_id account_id hashed : Text) (input : NewAdmin) (db : Db)
    → is_setup_completed db ≡ true
    → create_first_admin user_id account_id hashed input db
      ≡ (fail (conflict (codes "Admin already exists") (codes "CONFLICT") []), db)
unfolding create_first_admin claim_first_admin with_unique_violation
create_first_admin-claimed user_id account_id hashed input db h = rw h refl

create_first_admin-claims :
    (user_id account_id hashed v : Text) (input : NewAdmin) (db : Db)
    → (create_first_admin user_id account_id hashed input db).0 ≡ ok v
    → is_setup_completed (create_first_admin user_id account_id hashed input db).1 ≡ true
unfolding create_first_admin claim_first_admin insert_user with_unique_violation text_beq
create_first_admin-claims user_id account_id hashed v input db e =
    elim (Bool-cases (is_setup_completed db)) [
      | inl done ↦ fail-ok _ v _ (rw done at e)
      | inr open_claim ↦
          elim (Bool-cases (any (λ u. u.id == user_id || u.email == input.email) db.users)) [
            | inl taken ↦ fail-ok _ v _ (rw (open_claim, taken) at e)
            | inr free ↦ rw (open_claim, free) (unfold is_setup_completed in refl)
          ]
    ]

-- Once a first administrator is created, every later attempt is refused and changes nothing.
pub create_first_admin-once :
    (user_id user_id' account_id account_id' hashed hashed' v : Text) (input input' : NewAdmin)
    (db : Db)
    → (create_first_admin user_id account_id hashed input db).0 ≡ ok v
    → create_first_admin user_id' account_id' hashed' input'
        (create_first_admin user_id account_id hashed input db).1
      ≡ (
        fail (conflict (codes "Admin already exists") (codes "CONFLICT") []),
        (create_first_admin user_id account_id hashed input db).1,
      )
create_first_admin-once user_id user_id' account_id account_id' hashed hashed' v input input' db e =
    create_first_admin-claimed user_id' account_id' hashed' input' _
      (create_first_admin-claims user_id account_id hashed v input db e)
