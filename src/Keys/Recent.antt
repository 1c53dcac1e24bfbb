-- ===== src/Keys/Recent.antt =====
-- How old an answer from the cache can be.
use rootprint.Common.{
  ℕ, ◌+◌, ◌≤◌, ◌<◌, Text, text_eq, ◌≡◌, refl, ap, sym, Option, none, some, [], ◌∷◌, arith, All,
  All-imp, ◌∙◌, Bool-cases, inl, inr, ltb, not, ◌&&◌,
}
use rootprint.Common.Dict
use rootprint.Keys.{
  KeyTable, Keyring, ApiKeyCache, ApiKeyCacheEntry, expires_at, answer_of, is_full, evict_oldest,
  set_cache_entry, positive_ttl_ms, VerifyApiKeyResult, verified, unknown_key, resolve, use_cached,
  verify_api_key, VerifiedApiKey,
}

abbrev pub answer : Option VerifiedApiKey → VerifyApiKeyResult
answer none = unknown_key
answer (some row) = verified row

module _ (table : KeyTable) (history : ℕ → KeyTable.Db table) where
  open table use {find_by_token}

  -- The entry says what the database said at a time that is not past and not long ago.
  pub record WasTrue (now : ℕ) (x : Text × ApiKeyCacheEntry) : Type 0 where
    pub at : ℕ
    pub past : at ≤ now
    pub expiry : expires_at x.1 ≤ at + positive_ttl_ms
    pub said : answer_of x.1 ≡ answer (find_by_token (history at) x.0)

  WasTrue-later :
      {now later : ℕ} (x : Text × ApiKeyCacheEntry) → now ≤ later → WasTrue now x → WasTrue later x
  WasTrue-later x le w = record { at = w.at; past = omega arith; expiry = w.expiry; said = w.said }

  -- The answer to a token is what the database said less than a minute ago.
  unfoldable pub IsRecent : ℕ → Text → VerifyApiKeyResult → Type 0
  IsRecent now bearer r =
      (at : ℕ) × (at ≤ now)
      × (now < at + positive_ttl_ms)
      × (r ≡ answer (find_by_token (history at) bearer))

  evict_oldest-All :
      (P : Text × ApiKeyCacheEntry → Type 0) (cache : ApiKeyCache)
      → All P cache
      → All P (evict_oldest cache)
  unfolding evict_oldest
  evict_oldest-All P [] h = tt
  evict_oldest-All P ((k, e) ∷ cache) h = Dict.All-delete P ((k, e) ∷ cache) k h

  pub set_cache_entry-All :
      (P : Text × ApiKeyCacheEntry → Type 0) (cache : ApiKeyCache) (token : Text)
      (entry : ApiKeyCacheEntry)
      → P (token, entry)
      → All P cache
      → All P (set_cache_entry cache token entry)
  unfolding set_cache_entry
  set_cache_entry-All P cache token entry p h =
      elim (Bool-cases (not (Dict.has cache token) && is_full cache)) [
        | inl full ↦
            rw full (Dict.All-set P (evict_oldest cache) token entry p (evict_oldest-All P cache h))
        | inr fits ↦ rw fits (Dict.All-set P cache token entry p h)
      ]

  module _ (now : ℕ) (bearer : Text) where
    resolve-WasTrue :
        (s : Keyring table)
        → s.db ≡ history now
        → All (WasTrue now) s.cache
        → (found : Option VerifiedApiKey) → find_by_token s.db bearer ≡ found
        → IsRecent now bearer (resolve table now bearer s found).0
          × All (WasTrue now) (resolve table now bearer s found).1.cache
    unfolding resolve IsRecent
    resolve-WasTrue s current h none e =
        let said : unknown_key ≡ answer (find_by_token (history now) bearer) =
          ap answer (sym e) ∙ ap (λ d. answer (find_by_token d bearer)) current in
        (
          (now, omega arith, omega arith, said),
          set_cache_entry-All (WasTrue now) s.cache bearer _
              (record { at = now; past = omega arith; expiry = omega arith; said = said }) h,
        )
    resolve-WasTrue s current h (some row) e =
        let said : verified row ≡ answer (find_by_token (history now) bearer) =
          ap answer (sym e) ∙ ap (λ d. answer (find_by_token d bearer)) current in
        (
          (now, omega arith, omega arith, said),
          set_cache_entry-All (WasTrue now) s.cache bearer _
              (record { at = now; past = omega arith; expiry = omega arith; said = said }) h,
        )

    use_cached-WasTrue :
        (s : Keyring table)
        → s.db ≡ history now
        → All (WasTrue now) s.cache
        → (entry : Option ApiKeyCacheEntry) → Dict.get s.cache bearer ≡ entry
        → IsRecent now bearer (use_cached table now bearer s entry).0
          × All (WasTrue now) (use_cached table now bearer s entry).1.cache
    unfolding use_cached
    use_cached-WasTrue s current h none e = resolve-WasTrue s current h _ refl
    use_cached-WasTrue s current h (some entry) e = elim (Bool-cases (ltb now (expires_at entry))) [
      | inl valid ↦
          let w = Dict.All-get (WasTrue now) s.cache bearer e h in
          rw valid
            ((unfold IsRecent in (w.at, w.past, (let x = w.expiry in ground arith), w.said)), h)
      | inr expired ↦ rw expired (resolve-WasTrue s current h _ refl)
    ]

  -- The caches that a process can hold: verifications at rising times, and clearings in between. The
  -- database changes by itself, as `history` says.
  pub data Reachable : ℕ → ApiKeyCache → Type 0 where
    started : (t : ℕ) → Reachable t []
    cleared : {t : ℕ} {cache : ApiKeyCache} → Reachable t cache → Reachable t []
    checked :
        {t : ℕ} {cache : ApiKeyCache} (now : ℕ) (bearer : Text) (s : Keyring table)
        → Reachable t cache
        → t ≤ now
        → s.cache ≡ cache
        → s.db ≡ history now
        → Reachable now (verify_api_key table now bearer s).1.cache

  Reachable-WasTrue : {t : ℕ} {cache : ApiKeyCache} → Reachable t cache → All (WasTrue t) cache
  unfolding verify_api_key
  Reachable-WasTrue (started t) = tt
  Reachable-WasTrue (cleared r) = tt
  Reachable-WasTrue (checked now bearer s r le same current) =
      (use_cached-WasTrue now bearer s current
        (All-imp s.cache (λ x. WasTrue-later x le) (rw same (Reachable-WasTrue r))) _ refl).1

  -- In a running process, with any writers to the database, a token is answered by what the database
  -- said about it at some moment of the last minute.
  pub verify_api_key-IsRecent :
      {t : ℕ} {cache : ApiKeyCache} (now : ℕ) (bearer : Text) (s : Keyring table)
      → Reachable t cache
      → t ≤ now
      → s.cache ≡ cache
      → s.db ≡ history now
      → IsRecent now bearer (verify_api_key table now bearer s).0
  unfolding verify_api_key
  verify_api_key-IsRecent now bearer s r le same current =
      (use_cached-WasTrue now bearer s current
        (All-imp s.cache (λ x. WasTrue-later x le) (rw same (Reachable-WasTrue r))) _ refl).0
