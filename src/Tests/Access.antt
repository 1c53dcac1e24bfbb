-- ===== src/Tests/Access.antt =====
-- Keys, proxies and errors.
use rootprint.Common.{
  ℕ, ◌+◌, ◌≤◌, ◌≡◌, ◌≢◌, refl, ap, Text, codes, text_beq, text_eq, nat_eq, ◌==◌, ==-refl, not,
  Option, none, some, List, [], ◌∷◌, length, arith, if◌then◌else◌, filter, Bool-cases, inl, inr,
  any, ltb, sym, false, ◌∙◌,
}
use mathlib.Core.Option.{some-injective}
use rootprint.Http.{ok}
use rootprint.Auth.{pick_forwarded_ip, extract_bearer_token}
use rootprint.Keys.{
  KeyTable, Keyring, CreateApiKeyInput, ApiKeyRow, VerifiedApiKey, hit, max_cache_entries,
  create_api_key, delete_api_key, verify_api_key,
}
use rootprint.Keys.Bounded.{verify_api_key-le}
use rootprint.Keys.Recent.{IsRecent, started, verify_api_key-IsRecent}
use rootprint.Keys.Invalidate.{KeyLaws}
use rootprint.Keys.Deleted.{IsRefused, delete_api_key-IsRefused}

pick_forwarded_ip_test :
    pick_forwarded_ip (some (codes "1.1.1.1, 2.2.2.2, 3.3.3.3")) (codes "9.9.9.9") 2
    ≡ codes "2.2.2.2"
unfolding pick_forwarded_ip
pick_forwarded_ip_test = refl

extract_bearer_token_test : extract_bearer_token (some (codes "Bearer rp_1")) ≡ some (codes "rp_1")
unfolding extract_bearer_token text_beq
extract_bearer_token_test = refl

-- A table of keys as the list of its rows, the newest first.
pub find_row : List ApiKeyRow → Text → Option VerifiedApiKey
find_row [] token = none
find_row (r ∷ rows) token =
    if r.token == token
    then some (record { id = r.id; name = r.name; index_id = r.index_id })
    else find_row rows token

abbrev pub find_id : List ApiKeyRow → ℕ → Option ApiKeyRow
find_id [] id = none
find_id (r ∷ rows) id = if r.id == id then some r else find_id rows id

abbrev pub new_row : List ApiKeyRow → CreateApiKeyInput → Text → Text → ApiKeyRow
new_row rows input token user_id = record {
  id = length rows + 1;
  name = input.name;
  token = token;
  index_id = input.index_id;
  last_used_at = none;
  created_at = 0;
  created_by_user_id = user_id;
}

abbrev pub without : ℕ → List ApiKeyRow → List ApiKeyRow
without id rows = filter (λ r. not (r.id == id)) rows

abbrev pub table : KeyTable
table = record {
  Db = List ApiKeyRow;
  find_by_token = find_row;
  find_by_id = find_id;
  insert = λ rows input token user_id.
      (ok (some (new_row rows input token user_id)), new_row rows input token user_id ∷ rows);
  delete_by_id = λ rows id. (any (λ r. r.id == id) rows, without id rows);
  touch_where = λ rows test now. rows;
}

find_row-without :
    (rows : List ApiKeyRow) (id : ℕ) (token : Text) (key : VerifiedApiKey)
    → find_row (without id rows) token ≡ some key
    → key.id ≢ id
unfolding find_row
find_row-without [] id token key e = cc
find_row-without (r ∷ rows) id token key e = elim (Bool-cases (r.id == id)) [
  | inl gone ↦ find_row-without rows id token key (rw gone at e)
  | inr kept ↦ elim (Bool-cases (r.token == token)) [
    | inl same ↦ λ h. cc (
      kept,
      ==-refl id,
      h,
      ap (λ k. k.id) (some-injective _ key (rw (kept, find_row, same) at e)),
    )
    | inr other ↦ find_row-without rows id token key (rw (kept, find_row, other) at e)
  ]
]

table-KeyLaws : KeyLaws table
unfolding find_row
table-KeyLaws = record {
  insert_found = λ rows input token user_id row e. rw (==-refl token) (ground arith);
  delete_gone = λ rows id token key _ e. find_row-without rows id token key e;
}

abbrev empty : Keyring table
empty = record { db = []; cache = [] }

abbrev logs_key : CreateApiKeyInput
logs_key = record { name = codes "k"; index_id = codes "logs" }

create_api_key_ok :
    (create_api_key table (codes "traces") (codes "rp_1") (codes "admin") logs_key empty).0
    ≡ ok (
      record {
        id = 1;
        name = codes "k";
        token_prefix = codes "rp_1";
        index_id = codes "logs";
        last_used_at = none;
        created_at = 0;
        created_by_user_id = codes "admin";
      },
      codes "rp_1",
    )
unfolding create_api_key text_beq
create_api_key_ok = refl

abbrev row : ℕ → Text → ApiKeyRow
row id token = record {
  id = id;
  name = token;
  token = token;
  index_id = codes "logs";
  last_used_at = none;
  created_at = 0;
  created_by_user_id = codes "admin";
}

abbrev pub two_keys : Keyring table
two_keys = record { db = row 1 (codes "one") ∷ row 2 (codes "two") ∷ []; cache = [] }

-- A process that has the first key in its cache when it deletes it.
abbrev caching : Keyring table
caching = record two_keys {
  cache =
      (codes "one", hit (record { id = 1; name = codes "one"; index_id = codes "logs" }) 60005)
      ∷ [];
}

caching_ok : (delete_api_key table 1 caching).0 ≡ ok tt
unfolding delete_api_key
caching_ok = refl

-- The first key is deleted at instant 7.
abbrev over_time : ℕ → List ApiKeyRow
over_time t = if ltb t 7 then caching.db else (delete_api_key table 1 caching).1.db

over_time_deleted : (t : ℕ) → 7 ≤ t → over_time t ≡ over_time 7
over_time_deleted t le = let late : ltb t 7 ≡ false = ground arith in rw late refl

delete_api_key-IsRefused_example :
    IsRefused table over_time 1 7 (delete_api_key table 1 caching).1.cache
delete_api_key-IsRefused_example =
    delete_api_key-IsRefused table over_time 1 7 caching table-KeyLaws
      (λ gone t le bearer key e.
        gone bearer key (ap (λ rows. find_row rows bearer) (sym (over_time_deleted t le)) ∙ e))
      caching_ok refl

verify_api_key-le_example :
    length (verify_api_key table 7 (codes "two") two_keys).1.cache ≤ max_cache_entries
verify_api_key-le_example = verify_api_key-le table 7 (codes "two") two_keys (omega arith)

verify_api_key-IsRecent_example :
    IsRecent table
      (λ t. two_keys.db)
      7
      (codes "two")
      (verify_api_key table 7 (codes "two") two_keys).0
verify_api_key-IsRecent_example =
    verify_api_key-IsRecent table (λ t. two_keys.db) 7 (codes "two") two_keys (started 3)
      (omega arith) refl refl
