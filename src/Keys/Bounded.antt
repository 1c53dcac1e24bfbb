-- ===== src/Keys/Bounded.antt =====
-- The size of the cache.
use rootprint.Common.{
  ℕ, ◌≤◌, ◌<◌, Text, text_eq, ◌≡◌, true, false, Option, none, some, [], ◌∷◌, arith, length, ==-refl,
}
use rootprint.Common.Dict
use rootprint.Keys.{
  KeyTable, Keyring, ApiKeyCache, ApiKeyCacheEntry, is_full, evict_oldest, set_cache_entry,
  max_cache_entries, resolve, use_cached, verify_api_key, VerifiedApiKey,
}

evict_oldest-lt :
    (cache : ApiKeyCache) → is_full cache ≡ true → length (evict_oldest cache) < length cache
unfolding evict_oldest is_full Dict.delete
evict_oldest-lt [] h = ground arith
evict_oldest-lt ((k, e) ∷ cache) h = ground (arith, ==-refl k)

is_full-lt : (cache : ApiKeyCache) → is_full cache ≡ false → length cache < max_cache_entries
unfolding is_full
is_full-lt cache h = ground arith

set_cache_entry-le :
    (cache : ApiKeyCache) (token : Text) (entry : ApiKeyCacheEntry)
    → length cache ≤ max_cache_entries
    → length (set_cache_entry cache token entry) ≤ max_cache_entries
unfolding set_cache_entry
set_cache_entry-le cache token entry h = ground (
  arith,
  Dict.length-set cache token entry,
  Dict.length-set (evict_oldest cache) token entry,
  evict_oldest-lt cache,
  is_full-lt cache,
)

module _ (table : KeyTable) (now : ℕ) (bearer : Text) where
  resolve-le :
      (s : Keyring table) (found : Option VerifiedApiKey)
      → length s.cache ≤ max_cache_entries
      → length (resolve table now bearer s found).1.cache ≤ max_cache_entries
  unfolding resolve
  resolve-le s none h = set_cache_entry-le s.cache bearer _ h
  resolve-le s (some row) h = set_cache_entry-le s.cache bearer _ h

  use_cached-le :
      (s : Keyring table) (entry : Option ApiKeyCacheEntry)
      → length s.cache ≤ max_cache_entries
      → length (use_cached table now bearer s entry).1.cache ≤ max_cache_entries
  unfolding use_cached
  use_cached-le s none h = resolve-le s _ h
  use_cached-le s (some e) h =
      ground (arith, resolve-le s (KeyTable.find_by_token table s.db bearer))

  -- A check of any token leaves the cache within its limit of entries, if it was so before.
  pub verify_api_key-le :
      (s : Keyring table)
      → length s.cache ≤ max_cache_entries
      → length (verify_api_key table now bearer s).1.cache ≤ max_cache_entries
  unfolding verify_api_key
  verify_api_key-le s h = use_cached-le s _ h
