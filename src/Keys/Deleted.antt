-- ===== src/Keys/Deleted.antt =====
-- How long a deleted key is still accepted, with checks that await their query.
use rootprint.Common.{
  Option-cases, ltb, false, List, ℕ, ◌+◌, ◌≤◌, ◌<◌, Text, text_eq, ◌≡◌, ◌≢◌, refl, ap, sym, ◌∙◌,
  Option, none, some, [], arith, Bool-cases, inl, inr,
}
use mathlib.Core.Option.{some-injective}
use rootprint.Common.Dict
use rootprint.Http.{ok}
use rootprint.Keys.{
  verify_api_key, use_cached, ApiKeyCacheEntry, expires_at, KeyTable, Keyring, ApiKeyCache,
  positive_ttl_ms, resolve, VerifyApiKeyResult, verified, VerifiedApiKey, delete_api_key,
}
use rootprint.Keys.Recent.{answer}
use rootprint.Keys.Invalidate.{KeyLaws}
use rootprint.Keys.Flights.{
  CheckRun, check_begun, check_read, Flight, settled_in, CheckAnswer, from_cache, from_table,
  HeardBack-Heard, IsAloft, IsEntry, All-middle, CheckRun-IsTold,
}

module _ (table : KeyTable) (history : ℕ → KeyTable.Db table) where
  open table use {Db, find_by_token}

  -- The database said so in the run, less than a minute before the check began or later.
  record IsSaid (start : ℕ) (bearer : Text) (began : ℕ) (r : VerifyApiKeyResult) : Type 0 where
    pub at : ℕ
    pub since : start ≤ at
    pub recent : began < at + positive_ttl_ms
    pub said : r ≡ answer (find_by_token (history at) bearer)

  settled-answer :
      (t : ℕ) (cache : ApiKeyCache) (f : Flight) (o : Option VerifiedApiKey)
      → (settled_in table history t cache f o).0 ≡ answer o
  unfolding resolve
  settled-answer t cache f none = refl
  settled-answer t cache f (some row) = refl

  CheckAnswer-IsSaid :
      {start : ℕ} {cache0 : ApiKeyCache} {bearer : Text} {began : ℕ} {r : VerifyApiKeyResult}
      → cache0 ≡ []
      → CheckAnswer table history start cache0 bearer began r
      → IsSaid start bearer began r
  CheckAnswer-IsSaid empty (from_cache {t = t} {cache = cache} bearer e run found valid) =
      let (s, c, a) = CheckRun-IsTold table history empty run in
      let w = Dict.All-get (IsEntry table history _ t) cache bearer found c in
      record {
        at = w.at;
        since = (let p = w.since in let q = w.after in omega arith);
        recent = (let p = w.after in let q = w.expiry in ground arith);
        said = w.said;
      }
  CheckAnswer-IsSaid empty (from_table {t = t} {cache = cache} fs gs f o run found) =
      let (s, c, a) = CheckRun-IsTold table history empty run in
      let aloft = (All-middle (IsAloft table history _ t) fs f gs a).1 in
      let h = HeardBack-Heard table history o found aloft.back in
      record {
        at = h.at;
        since = (let p = aloft.since in let q = h.after in omega arith);
        recent = (let q = h.after in omega arith);
        said = settled-answer t cache f o ∙ ap answer h.read;
      }

  answer-some :
      (o : Option VerifiedApiKey) (key : VerifiedApiKey) → verified key ≡ answer o → o ≡ some key
  answer-some none key e = cc
  answer-some (some row) key e = cc

  -- No check accepts the key: in the process with the given cache and no check under way at the given instant; and in
  -- any other, whatever is cached or under way there, where it begins a minute later.
  pub record IsRefused (id deleted_at : ℕ) (cache : ApiKeyCache) : Type 0 where
    pub here :
        {bearer : Text} {began : ℕ} (key : VerifiedApiKey)
        → CheckAnswer table history deleted_at cache bearer began (verified key)
        → key.id ≢ id
    pub elsewhere :
        {start : ℕ} {bearer : Text} {began : ℕ} (key : VerifiedApiKey)
        → CheckAnswer table history start [] bearer began (verified key)
        → deleted_at + positive_ttl_ms ≤ began
        → key.id ≢ id

  module _ {start : ℕ} {cache0 : ApiKeyCache} {t : ℕ} {cache : ApiKeyCache} {fs : List Flight}
      (bearer : Text) (run : CheckRun table history start cache0 t cache fs) where
    missed-CheckAnswer :
        ((e : ApiKeyCacheEntry) → Dict.get cache bearer ≡ some e → ltb t (expires_at e) ≡ false)
        → CheckAnswer table history start cache0 bearer t
            (resolve table t bearer
              (record { db = history t; cache = cache })
              (find_by_token (history t) bearer)).0
    missed-CheckAnswer stale =
        from_table [] fs _ (find_by_token (history t) bearer)
          (check_read [] fs bearer t (check_begun bearer run stale)) refl

    -- A check whose query is answered at once is one of these.
    pub verify_api_key-CheckAnswer :
        CheckAnswer table history start cache0 bearer t
          (verify_api_key table t bearer (record { db = history t; cache = cache })).0
    unfolding verify_api_key use_cached
    verify_api_key-CheckAnswer = elim (Option-cases (Dict.get cache bearer)) [
      | inl e ↦ rw e (missed-CheckAnswer (λ entry found. cc (e, found)))
      | inr (entry, e) ↦ elim (Bool-cases (ltb t (expires_at entry))) [
        | inl valid ↦ rw (e, valid) (from_cache bearer entry run e valid)
        | inr expired ↦
            rw (e, expired)
              (missed-CheckAnswer
                (λ entry' found. rw (← some-injective entry entry' (sym e ∙ found)) expired))
      ]
    ]

  delete_api_key-cleared :
      (id : ℕ) (s : Keyring table)
      → (delete_api_key table id s).0 ≡ ok tt
      → (delete_api_key table id s).1.cache ≡ []
  unfolding delete_api_key
  delete_api_key-cleared id s e = elim (Bool-cases (KeyTable.delete_by_id table s.db id).0) [
    | inl gone ↦ rw gone refl
    | inr kept ↦ cc (rw kept at e)
  ]

  delete_api_key-gone :
      (id : ℕ) (s : Keyring table) (bearer : Text) (key : VerifiedApiKey)
      → KeyLaws table
      → (delete_api_key table id s).0 ≡ ok tt
      → find_by_token (delete_api_key table id s).1.db bearer ≡ some key
      → key.id ≢ id
  unfolding delete_api_key
  delete_api_key-gone id s bearer key laws e found =
      elim (Bool-cases (KeyTable.delete_by_id table s.db id).0) [
        | inl gone ↦ KeyLaws.delete_gone laws s.db id bearer key gone (rw gone at found)
        | inr kept ↦ cc (rw kept at e)
      ]

  -- Where a delete statement leaves no row with the id, and the id is not given to another row: once a delete of a
  -- key succeeded, in the process that did it, if no check was then under way there, no later check accepts the key;
  -- and in every process, with whatever it has cached and whatever checks are under way at the delete, no check that
  -- begins a minute after the delete or later does. The queries of the checks may take any time and fail, and the
  -- caches be cleared at any time.
  pub delete_api_key-IsRefused :
      (id deleted_at : ℕ) (s : Keyring table)
      → KeyLaws table
      → (((bearer : Text) (key : VerifiedApiKey)
            → find_by_token (history deleted_at) bearer ≡ some key
            → key.id ≢ id)
          → (t : ℕ) → deleted_at ≤ t
          → (bearer : Text) (key : VerifiedApiKey) → find_by_token (history t) bearer ≡ some key
          → key.id ≢ id)
      → (delete_api_key table id s).0 ≡ ok tt
      → history deleted_at ≡ (delete_api_key table id s).1.db
      → IsRefused id deleted_at (delete_api_key table id s).1.cache
  delete_api_key-IsRefused id deleted_at s laws once e same =
      let gone : (bearer : Text) (key : VerifiedApiKey)
          → find_by_token (history deleted_at) bearer ≡ some key
          → key.id ≢ id =
        λ bearer key found.
          delete_api_key-gone id s bearer key laws e
            (ap (λ d. find_by_token d bearer) (sym same) ∙ found) in
      record {
        here = λ {bearer} {began} key a.
            let w = CheckAnswer-IsSaid (delete_api_key-cleared id s e) a in
            once gone w.at w.since bearer key (answer-some _ key w.said);
        elsewhere = λ {start} {bearer} {began} key a late.
            let w = CheckAnswer-IsSaid refl a in
            let past = w.recent in
            once gone w.at (omega arith) bearer key (answer-some _ key w.said);
      }
