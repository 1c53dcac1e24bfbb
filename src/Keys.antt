-- ===== src/Keys.antt =====
-- Ingest keys and their cache: apps/api/src/services/api-key.service.ts. The table `api_key` is
-- reached through an interface; times are milliseconds.
pub mod Bounded
pub mod Recent
pub mod Invalidate
pub mod Flights
pub mod Deleted
use rootprint.Common.{
  ℕ, ◌+◌, ◌-◌, Text, codes, text_eq, nat_eq, ◌==◌, Bool, true, not, ◌&&◌, Option, none, some, [],
  ◌∷◌, ltb, leb, if◌then◌else◌, take, length,
}
use rootprint.Common.Dict
use rootprint.Common.Dict.{Dict}
use rootprint.Http.{
  Result, ok, fail, raise, bad_request, internal, not_found, with_unique_violation,
}

pub record VerifiedApiKey : Type 0 where
  pub id : ℕ
  pub name : Text
  pub index_id : Text

pub data VerifyApiKeyResult : Type 0 where
  verified : VerifiedApiKey → VerifyApiKeyResult
  unknown_key : VerifyApiKeyResult

pub record ApiKeyRow : Type 0 where
  pub id : ℕ
  pub name : Text
  pub token : Text
  pub index_id : Text
  pub last_used_at : Option ℕ
  pub created_at : ℕ
  pub created_by_user_id : Text

pub record ApiKeySummary : Type 0 where
  pub id : ℕ
  pub name : Text
  pub token_prefix : Text
  pub index_id : Text
  pub last_used_at : Option ℕ
  pub created_at : ℕ
  pub created_by_user_id : Text

pub record CreateApiKeyInput : Type 0 where
  pub name : Text
  pub index_id : Text

-- The statements that the service sends to PostgreSQL. An insert returns its row or throws; a delete
-- says whether a row was there; the update sets `last_used_at` where its test holds.
pub record KeyTable : Type 1 where
  pub Db : Type 0
  pub find_by_token : Db → Text → Option VerifiedApiKey
  pub find_by_id : Db → ℕ → Option ApiKeyRow
  pub insert : Db → CreateApiKeyInput → Text → Text → Result (Option ApiKeyRow) × Db
  pub delete_by_id : Db → ℕ → Bool × Db
  pub touch_where : Db → (ApiKeyRow → Bool) → ℕ → Db

pub data ApiKeyCacheEntry : Type 0 where
  miss : (expires_at : ℕ) → ApiKeyCacheEntry
  hit : (row : VerifiedApiKey) → (expires_at : ℕ) → ApiKeyCacheEntry

abbrev pub expires_at : ApiKeyCacheEntry → ℕ
expires_at (miss t) = t
expires_at (hit row t) = t

abbrev pub answer_of : ApiKeyCacheEntry → VerifyApiKeyResult
answer_of (miss t) = unknown_key
answer_of (hit row t) = verified row

abbrev pub positive_ttl_ms : ℕ
positive_ttl_ms = 60000

abbrev pub negative_ttl_ms : ℕ
negative_ttl_ms = 10000

abbrev pub max_cache_entries : ℕ
max_cache_entries = 5000

abbrev api_key_display_prefix_length : ℕ
api_key_display_prefix_length = 12

abbrev last_used_throttle_ms : ℕ
last_used_throttle_ms = 60000

abbrev pub ApiKeyCache : Type 0
ApiKeyCache = Dict Text ApiKeyCacheEntry

-- Deletes the oldest entry.
evict_oldest : ApiKeyCache → ApiKeyCache
evict_oldest [] = []
evict_oldest ((oldest, e) ∷ cache) = Dict.delete ((oldest, e) ∷ cache) oldest

-- The size test stands behind a name, so that proofs need not count to the limit.
is_full : ApiKeyCache → Bool
is_full cache = leb max_cache_entries (length cache)

pub set_cache_entry : ApiKeyCache → Text → ApiKeyCacheEntry → ApiKeyCache
unfolding evict_oldest is_full Dict.get Dict.set Dict.delete
set_cache_entry cache token entry =
    Dict.set (if not (Dict.has cache token) && is_full cache then evict_oldest cache else cache)
      token entry

-- `last_used_at` is null, or older than the throttle.
is_stale : ℕ → ℕ → ApiKeyRow → Bool
is_stale now id row =
    row.id == id
    && elim row.last_used_at [ none ↦ true | some t ↦ ltb t (now - last_used_throttle_ms) ]

to_api_key_summary : ApiKeyRow → Text → ApiKeySummary
to_api_key_summary row token_prefix = record {
  id = row.id;
  name = row.name;
  token_prefix = token_prefix;
  index_id = row.index_id;
  last_used_at = row.last_used_at;
  created_at = row.created_at;
  created_by_user_id = row.created_by_user_id;
}

module _ (table : KeyTable) where
  open table use {Db, find_by_token, find_by_id, insert, delete_by_id, touch_where}

  -- The database and the cache of one process.
  pub record Keyring : Type 0 where
    pub db : Db
    pub cache : ApiKeyCache

  pub touch_last_used : Db → ℕ → ℕ → Db
  unfolding is_stale
  touch_last_used db id now = touch_where db (is_stale now id) now

  -- A lookup in the database, with its answer put into the cache.
  pub resolve : ℕ → Text → Keyring → Option VerifiedApiKey → VerifyApiKeyResult × Keyring
  unfolding set_cache_entry touch_last_used
  resolve now bearer s none = (
    unknown_key,
    record s { cache = set_cache_entry s.cache bearer (miss (now + negative_ttl_ms)) },
  )
  resolve now bearer s (some row) = (
    verified row,
    record {
      db = touch_last_used s.db row.id now;
      cache = set_cache_entry s.cache bearer (hit row (now + positive_ttl_ms));
    },
  )

  pub use_cached : ℕ → Text → Keyring → Option ApiKeyCacheEntry → VerifyApiKeyResult × Keyring
  unfolding resolve
  use_cached now bearer s none = resolve now bearer s (find_by_token s.db bearer)
  use_cached now bearer s (some e) =
      if ltb now (expires_at e)
      then (answer_of e, s)
      else resolve now bearer s (find_by_token s.db bearer)

  unfoldable pub verify_api_key : ℕ → Text → Keyring → VerifyApiKeyResult × Keyring
  unfolding use_cached
  verify_api_key now bearer s = use_cached now bearer s (Dict.get s.cache bearer)

  pub created :
      Text → Db → ApiKeyCache → Result (Option ApiKeyRow) → Result (ApiKeySummary × Text) × Keyring
  unfolding to_api_key_summary
  created token db cache (ok none) = (
    fail (internal (codes "Failed to create API key") (codes "INTERNAL")),
    record { db = db; cache = cache },
  )
  created token db cache (ok (some row)) = (
    ok (to_api_key_summary row (take api_key_display_prefix_length row.token), token),
    record { db = db; cache = [] },
  )
  created token db cache (fail e) = (fail e, record { db = db; cache = cache })
  created token db cache (raise t) = (raise t, record { db = db; cache = cache })

  -- `token` is the random token that `generateApiKey` draws, `trace_index_id` the configured one.
  unfoldable pub create_api_key :
      Text → Text → Text → CreateApiKeyInput → Keyring → Result (ApiKeySummary × Text) × Keyring
  unfolding created with_unique_violation
  create_api_key trace_index_id token user_id input s =
      if input.index_id == trace_index_id
      then (
        fail (
            bad_request (codes "That index is a trace index.") (codes "INDEX_IS_TRACE_INDEX")
              (record { path = codes "indexId"; message = codes "Pick a log index." } ∷ [])),
        s,
      )
      else (let (r, db) = insert s.db input token user_id in
          created token db s.cache
            (with_unique_violation (codes "API key name already exists") (codes "CONFLICT") r))

  pub get_api_key_value : ℕ → Keyring → Result Text
  get_api_key_value id s = elim (find_by_id s.db id) [
    | none ↦ fail (not_found (codes "API key not found") (codes "NOT_FOUND"))
    | some row ↦ ok row.token
  ]

  unfoldable pub delete_api_key : ℕ → Keyring → Result (Unit {0}) × Keyring
  delete_api_key id s =
      let (deleted, db) = delete_by_id s.db id in
      if deleted then (ok tt, record { db = db; cache = [] }) else (
        fail (not_found (codes "API key not found") (codes "NOT_FOUND")),
        record { db = db; cache = s.cache },
      )
