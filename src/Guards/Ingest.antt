-- ===== src/Guards/Ingest.antt =====
-- The guard of the ingest routes, on a cache that may be old.
use rootprint.Common.{
  ℕ, ◌+◌, ◌≤◌, ◌<◌, ◌≡◌, refl, ap, inl, inr, ◌⊎◌, Text, codes, Option, none, some,
}
use rootprint.Http.{Result, ok, fail, unauthorized, forbidden}
use rootprint.Auth.{extract_bearer_token}
use rootprint.Keys.{
  KeyTable, Keyring, ApiKeyCache, VerifiedApiKey, VerifyApiKeyResult, positive_ttl_ms,
  verify_api_key,
}
use rootprint.Keys.Recent.{IsRecent, Reachable, verify_api_key-IsRecent, answer}
use rootprint.Guards.{of_answer, check_ingest_key, require_ingest_key}

module _ (table : KeyTable) (history : ℕ → KeyTable.Db table) where
  open table use {find_by_token}

  -- What may be said to a request with this token: the key that the database had under it, or that it had none, at a
  -- time of the last minute; a request without a token is told so.
  pub IsJust : ℕ → Option Text → Result VerifiedApiKey → Type 0
  IsJust now none r =
      r ≡ fail (unauthorized (codes "Missing bearer token") (codes "INGEST_MISSING_BEARER"))
  IsJust now (some bearer) r =
      (at : ℕ) × (at ≤ now)
      × (now < at + positive_ttl_ms)
      × (((key : VerifiedApiKey) × (r ≡ ok key) × (find_by_token (history at) bearer ≡ some key))
          ⊎ ((r ≡ fail (forbidden (codes "Invalid ingest token") (codes "INGEST_INVALID_TOKEN")))
              × (find_by_token (history at) bearer ≡ none)))

  said :
      (at : ℕ) (bearer : Text) (r : VerifyApiKeyResult)
      → (found : Option VerifiedApiKey) → find_by_token (history at) bearer ≡ found
      → r ≡ answer found
      → ((key : VerifiedApiKey) × (of_answer r ≡ ok key)
          × (find_by_token (history at) bearer ≡ some key))
        ⊎ ((of_answer r
              ≡ fail (forbidden (codes "Invalid ingest token") (codes "INGEST_INVALID_TOKEN")))
            × (find_by_token (history at) bearer ≡ none))
  said at bearer r none h e = inr (ap of_answer e, h)
  said at bearer r (some key) h e = inl (key, ap of_answer e, h)

  module _ {t : ℕ} {cache : ApiKeyCache} (now : ℕ) (s : Keyring table)
      (r : Reachable table history t cache) (le : t ≤ now) (same : s.cache ≡ cache)
      (current : s.db ≡ history now) where
    check_ingest_key-IsJust :
        (token : Option Text) → IsJust now token (check_ingest_key table now token s).0
    unfolding check_ingest_key IsJust IsRecent
    check_ingest_key-IsJust none = refl
    check_ingest_key-IsJust (some bearer) =
        let (at, past, young, e) =
          verify_api_key-IsRecent table history now bearer s r le same current in
        (
          at,
          past,
          young,
          said at bearer (verify_api_key table now bearer s).0 (find_by_token (history at) bearer)
              refl e,
        )

    -- In a running process, with any writers to the database and after any earlier requests: a request without a bearer
    -- token is refused; one with a token passes with the key that the database had under it at some moment of the last
    -- minute, or is refused and at some moment of the last minute there was none. Nothing else happens to it.
    pub require_ingest_key-IsJust :
        (authorization : Option Text)
        → IsJust now
            (extract_bearer_token authorization)
            (require_ingest_key table now authorization s).0
    unfolding require_ingest_key
    require_ingest_key-IsJust authorization =
        check_ingest_key-IsJust (extract_bearer_token authorization)
