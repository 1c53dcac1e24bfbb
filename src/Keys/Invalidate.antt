-- ===== src/Keys/Invalidate.antt =====
-- What creating a key does to the cache, and what the statements on keys promise.
use rootprint.Common.{
  ℕ, Text, codes, text_beq_iff, text_eq, ◌==◌, ◌≡◌, ◌≢◌, refl, ap, sym, ◌∙◌, true, Option, none,
  some, [], arith, Bool-cases, inl, inr,
}
use rootprint.Common.Dict
use rootprint.Http.{Result, ok, fail, raise, with_unique_violation, is_unique_violation}
use rootprint.Keys.{
  KeyTable, Keyring, CreateApiKeyInput, ApiKeyRow, ApiKeySummary, VerifiedApiKey, verified, resolve,
  use_cached, verify_api_key, created, create_api_key,
}

module _ (table : KeyTable) where
  open table use {Db, find_by_token, insert, delete_by_id}

  -- What PostgreSQL promises of the statements: an inserted row is found by its token, with the
  -- values that were given, and after a delete no row with the id is left.
  pub record KeyLaws : Type 0 where
    pub insert_found :
        (db : Db) (input : CreateApiKeyInput) (token user_id : Text) (row : ApiKeyRow)
        → (insert db input token user_id).0 ≡ ok (some row)
        → find_by_token (insert db input token user_id).1 token
          ≡ some (record { id = row.id; name = input.name; index_id = input.index_id })
    pub delete_gone :
        (db : Db) (id : ℕ) (token : Text) (key : VerifiedApiKey)
        → (delete_by_id db id).0 ≡ true
        → find_by_token (delete_by_id db id).1 token ≡ some key
        → key.id ≢ id

  verify_api_key-empty :
      (now : ℕ) (bearer : Text) (s : Keyring table) {found : Option VerifiedApiKey}
      → s.cache ≡ []
      → find_by_token s.db bearer ≡ found
      → (verify_api_key table now bearer s).0 ≡ (resolve table now bearer s found).0
  unfolding verify_api_key use_cached Dict.get
  verify_api_key-empty now bearer s {found} empty e =
      ap (λ c. (use_cached table now bearer s (Dict.get c bearer)).0) empty
      ∙ ap (λ f. (resolve table now bearer s f).0) e

  -- A create that succeeded inserted its row and emptied the cache.
  created-ok :
      (token : Text) (db : Db) (s : Keyring table) (r : Result (Option ApiKeyRow))
      {v : ApiKeySummary × Text}
      → (created table token db s.cache
          (with_unique_violation (codes "API key name already exists") (codes "CONFLICT") r)).0
        ≡ ok v
      → (row : ApiKeyRow) × (r ≡ ok (some row))
        × (v.0.id ≡ row.id)
        × ((created table token db s.cache
              (with_unique_violation (codes "API key name already exists") (codes "CONFLICT") r)).1
            ≡ record { db = db; cache = [] })
  unfolding created with_unique_violation
  created-ok token db s (ok none) e = cc
  created-ok token db s (ok (some row)) e = (row, refl, ground arith, refl)
  created-ok token db s (fail err) e = cc
  created-ok token db s (raise t) e = elim (Bool-cases (is_unique_violation t)) [
    | inl h ↦ cc (rw h at e)
    | inr h ↦ cc (rw h at e)
  ]

  -- Where the table finds a row by its token once it is inserted, a new key verifies at once, also
  -- where its token was cached as unknown, and it is bound to the index that was asked for, which
  -- is not the trace index.
  pub create-verify :
      (trace_index_id token user_id : Text) (input : CreateApiKeyInput) (s : Keyring table)
      (now : ℕ) {v : ApiKeySummary × Text}
      → KeyLaws
      → (create_api_key table trace_index_id token user_id input s).0 ≡ ok v
      → (input.index_id ≢ trace_index_id)
        × ((verify_api_key table now token
              (create_api_key table trace_index_id token user_id input s).1).0
            ≡ verified (record { id = v.0.id; name = input.name; index_id = input.index_id }))
  unfolding create_api_key resolve
  create-verify trace_index_id token user_id input s now laws e =
      elim (Bool-cases (input.index_id == trace_index_id)) [
        | inl same ↦ cc (rw same at e)
        | inr other ↦
            let (inserted, db) = insert s.db input token user_id in
            let (row, stored, id, after) = created-ok token db s inserted (rw other at e) in
            let found = laws.insert_found s.db input token user_id row stored in
            (
              λ same. cc (other, (text_beq_iff _ _).1 same),
              rw other (
                  ap (λ t. (verify_api_key table now token t).0) after
                  ∙ verify_api_key-empty now token _ refl found
                  ∙ ap
                      (λ n.
                        verified (record { id = n; name = input.name; index_id = input.index_id }))
                      (sym id)),
            )
      ]
