-- ===== src/Tests/Guarded.antt =====
-- Requests that come with an ingest key or with a personal key.
use rootprint.Common.{
  ◌≡◌, refl, Text, codes, text_eq, text_beq, true, false, none, some, Option, [], ◌∷◌, arith,
}
use rootprint.Http.{Result, ok}
use rootprint.Accounts.{User, admin, user_role}
use rootprint.Auth.{extract_bearer_token}
use rootprint.Keys.Recent.{started}
use rootprint.Guards.{KeyCheck, Actor, require_ingest_key, require_user_or_personal_key}
use rootprint.Guards.Ingest.{IsJust, require_ingest_key-IsJust}
use rootprint.Guards.Roles.{IsOwnKey, require_user_or_personal_key-IsOwnKey}
use rootprint.Tests.Access.{table, two_keys}

abbrev with_key : Option Text
with_key = some (codes "Bearer two")

require_ingest_key-IsJust_example :
    IsJust table
      (λ t. two_keys.db)
      7
      (extract_bearer_token with_key)
      (require_ingest_key table 7 with_key two_keys).0
require_ingest_key-IsJust_example =
    require_ingest_key-IsJust table (λ t. two_keys.db) 7 two_keys (started 3) (omega arith) refl
      refl with_key

abbrev owner : User
owner = record {
  id = codes "u1";
  email = codes "a@b.c";
  name = codes "A";
  role = some admin;
  email_verified = true;
  is_service_account = true;
}

abbrev accepts : Text → Result KeyCheck
accepts bearer = ok (record {
  valid = true;
  error_code = none;
  key = some (record { id = codes "k1"; reference_id = codes "u1" });
})

abbrev acts_for_owner : Actor
acts_for_owner = (record { id = codes "u1"; role = some user_role }, some (codes "k1"))

token_read : extract_bearer_token with_key ≡ some (codes "two")
unfolding extract_bearer_token text_beq
token_read = refl

key_passes :
    (require_user_or_personal_key accepts (owner ∷ []) 7 with_key (ok none) []).0
    ≡ ok acts_for_owner
unfolding require_user_or_personal_key text_beq
key_passes = refl

require_user_or_personal_key-IsOwnKey_example :
    IsOwnKey accepts (owner ∷ []) (codes "two") acts_for_owner
    × ((require_user_or_personal_key accepts (owner ∷ []) 7 with_key (ok none) []).1 ≡ (false, []))
require_user_or_personal_key-IsOwnKey_example =
    require_user_or_personal_key-IsOwnKey accepts (owner ∷ []) (codes "two") acts_for_owner 7
      with_key (ok none) [] token_read key_passes
