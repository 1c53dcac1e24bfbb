-- ===== src/Keys/Flights.antt =====
-- Checks that await their query, in `verifyApiKey`: between the look into the cache and the write to it the process
-- serves others, which may clear the cache, and the database changes. `history` is the database at each instant.
use rootprint.Common.{
  ℕ, ◌+◌, ◌≤◌, Text, text_eq, ◌≡◌, refl, ap, Option, none, some, List, [], ◌∷◌, ◌++◌, arith, All,
  All-append, All-imp, subst, ltb, true, false,
}
use mathlib.Core.Option.{some-injective}
use rootprint.Common.Dict
use rootprint.Keys.{
  KeyTable, Keyring, ApiKeyCache, ApiKeyCacheEntry, expires_at, answer_of, positive_ttl_ms,
  VerifyApiKeyResult, resolve, VerifiedApiKey,
}
use rootprint.Keys.Recent.{answer, set_cache_entry-All}

pub All-middle :
    {A : Type 0} (P : A → Type 0) (xs : List A) (x : A) (ys : List A)
    → All P (xs ++ x ∷ ys)
    → All P xs × P x × All P ys
All-middle P [] x ys (p, h) = (tt, p, h)
All-middle P (z ∷ xs) x ys (p, h) = let (a, b, c) = All-middle P xs x ys h in ((p, a), b, c)

-- A check that found no valid entry at `began`; `found` is what its query read, once it has.
pub record Flight : Type 0 where
  pub bearer : Text
  pub began : ℕ
  pub found : Option (Option VerifiedApiKey)

module _ (table : KeyTable) (history : ℕ → KeyTable.Db table) where
  open table use {Db, find_by_token}

  -- The process when the answer of the query is there: its cache is the one of now, not that of the start.
  abbrev pub settled_in :
      ℕ → ApiKeyCache → Flight → Option VerifiedApiKey → VerifyApiKeyResult × Keyring table
  settled_in t cache f o =
      resolve table f.began f.bearer (record { db = history t; cache = cache }) o

  -- What a process can come to from a cache without checks under way: its instant, its cache and the checks that wait.
  pub data CheckRun (start : ℕ) (cache0 : ApiKeyCache)
      : ℕ → ApiKeyCache → List Flight → Type 0 where
    run_started : CheckRun start cache0 start cache0 []
    run_later :
        {t : ℕ} {cache : ApiKeyCache} {fs : List Flight} (t' : ℕ)
        → CheckRun start cache0 t cache fs
        → t ≤ t'
        → CheckRun start cache0 t' cache fs
    run_cleared :
        {t : ℕ} {cache : ApiKeyCache} {fs : List Flight}
        → CheckRun start cache0 t cache fs
        → CheckRun start cache0 t [] fs
    check_begun :
        {t : ℕ} {cache : ApiKeyCache} {fs : List Flight} (bearer : Text)
        → CheckRun start cache0 t cache fs
        → ((e : ApiKeyCacheEntry) → Dict.get cache bearer ≡ some e → ltb t (expires_at e) ≡ false)
        → CheckRun start cache0 t cache (record { bearer = bearer; began = t; found = none } ∷ fs)
    check_read :
        {t : ℕ} {cache : ApiKeyCache} (fs gs : List Flight) (bearer : Text) (began : ℕ)
        → CheckRun start cache0 t cache
            (fs ++ record { bearer = bearer; began = began; found = none } ∷ gs)
        → CheckRun start cache0 t cache (
            fs
            ++ record {
              bearer = bearer;
              began = began;
              found = some (find_by_token (history t) bearer);
            }
              ∷ gs)
    check_settled :
        {t : ℕ} {cache : ApiKeyCache} (fs gs : List Flight) (f : Flight) (o : Option VerifiedApiKey)
        → CheckRun start cache0 t cache (fs ++ f ∷ gs)
        → f.found ≡ some o
        → CheckRun start cache0 t (settled_in t cache f o).1.cache (fs ++ gs)
    check_failed :
        {t : ℕ} {cache : ApiKeyCache} (fs gs : List Flight) (f : Flight)
        → CheckRun start cache0 t cache (fs ++ f ∷ gs)
        → CheckRun start cache0 t cache (fs ++ gs)

  -- The answer to a check of a token that began at an instant: at once from the cache, or when it settles.
  pub data CheckAnswer (start : ℕ) (cache0 : ApiKeyCache)
      : Text → ℕ → VerifyApiKeyResult → Type 0 where
    from_cache :
        {t : ℕ} {cache : ApiKeyCache} {fs : List Flight} (bearer : Text) (e : ApiKeyCacheEntry)
        → CheckRun start cache0 t cache fs
        → Dict.get cache bearer ≡ some e
        → ltb t (expires_at e) ≡ true
        → CheckAnswer start cache0 bearer t (answer_of e)
    from_table :
        {t : ℕ} {cache : ApiKeyCache} (fs gs : List Flight) (f : Flight) (o : Option VerifiedApiKey)
        → CheckRun start cache0 t cache (fs ++ f ∷ gs)
        → f.found ≡ some o
        → CheckAnswer start cache0 f.bearer f.began (settled_in t cache f o).0

  -- What a query read, at an instant after its check began.
  pub record Heard (t : ℕ) (bearer : Text) (began : ℕ) (o : Option VerifiedApiKey) : Type 0 where
    pub at : ℕ
    pub after : began ≤ at
    pub past : at ≤ t
    pub read : o ≡ find_by_token (history at) bearer

  pub data HeardBack (t : ℕ) (bearer : Text) (began : ℕ)
      : Option (Option VerifiedApiKey) → Type 0 where
    waiting : HeardBack t bearer began none
    heard : {o : Option VerifiedApiKey} → Heard t bearer began o → HeardBack t bearer began (some o)

  pub record IsAloft (start t : ℕ) (f : Flight) : Type 0 where
    pub since : start ≤ f.began
    pub before : f.began ≤ t
    pub back : HeardBack t f.bearer f.began f.found

  -- An entry comes from a check of this run, and is valid for a minute from its beginning.
  pub record IsEntry (start t : ℕ) (x : Text × ApiKeyCacheEntry) : Type 0 where
    pub began : ℕ
    pub at : ℕ
    pub since : start ≤ began
    pub after : began ≤ at
    pub past : at ≤ t
    pub expiry : expires_at x.1 ≤ began + positive_ttl_ms
    pub said : answer_of x.1 ≡ answer (find_by_token (history at) x.0)

  HeardBack-later :
      {t t' : ℕ} {bearer : Text} {began : ℕ} {o : Option (Option VerifiedApiKey)}
      → t ≤ t'
      → HeardBack t bearer began o
      → HeardBack t' bearer began o
  HeardBack-later le waiting = waiting
  HeardBack-later le (heard h) =
      heard (record {
        at = h.at;
        after = h.after;
        past = (let p = h.past in omega arith);
        read = h.read;
      })

  IsAloft-later : {start t t' : ℕ} (f : Flight) → t ≤ t' → IsAloft start t f → IsAloft start t' f
  IsAloft-later f le h = record {
    since = h.since;
    before = (let b = h.before in omega arith);
    back = HeardBack-later le h.back;
  }

  IsEntry-later :
      {start t t' : ℕ} (x : Text × ApiKeyCacheEntry)
      → t ≤ t'
      → IsEntry start t x
      → IsEntry start t' x
  IsEntry-later x le h = record {
    began = h.began;
    at = h.at;
    since = h.since;
    after = h.after;
    past = (let p = h.past in omega arith);
    expiry = h.expiry;
    said = h.said;
  }

  pub HeardBack-Heard :
      {t : ℕ} {bearer : Text} {began : ℕ} {m : Option (Option VerifiedApiKey)}
      (o : Option VerifiedApiKey)
      → m ≡ some o
      → HeardBack t bearer began m
      → Heard t bearer began o
  HeardBack-Heard o e waiting = cc
  HeardBack-Heard o e (heard {o = o'} h) = subst (Heard _ _ _) (some-injective o' o e) h

  settled-IsEntry :
      {start t : ℕ} (cache : ApiKeyCache) (f : Flight) (o : Option VerifiedApiKey)
      → f.found ≡ some o
      → IsAloft start t f
      → All (IsEntry start t) cache
      → All (IsEntry start t) (settled_in t cache f o).1.cache
  unfolding resolve
  settled-IsEntry {start} {t} cache f none e a h =
      let r = HeardBack-Heard none e a.back in
      set_cache_entry-All table history (IsEntry start t) cache f.bearer _
        (record {
          began = f.began;
          at = r.at;
          since = a.since;
          after = r.after;
          past = r.past;
          expiry = omega arith;
          said = ap answer r.read;
        })
        h
  settled-IsEntry {start} {t} cache f (some row) e a h =
      let r = HeardBack-Heard (some row) e a.back in
      set_cache_entry-All table history (IsEntry start t) cache f.bearer _
        (record {
          began = f.began;
          at = r.at;
          since = a.since;
          after = r.after;
          past = r.past;
          expiry = omega arith;
          said = ap answer r.read;
        })
        h

  abbrev pub IsTold : ℕ → ℕ → ApiKeyCache → List Flight → Type 0
  IsTold start t cache fs = (start ≤ t) × All (IsEntry start t) cache × All (IsAloft start t) fs

  -- What a run from an empty cache holds is what the database said in this run.
  pub CheckRun-IsTold :
      {start : ℕ} {cache0 : ApiKeyCache} {t : ℕ} {cache : ApiKeyCache} {fs : List Flight}
      → cache0 ≡ []
      → CheckRun start cache0 t cache fs
      → IsTold start t cache fs
  CheckRun-IsTold e run_started = (omega arith, rw e tt, tt)
  CheckRun-IsTold e (run_later t' r le) =
      let (s, c, a) = CheckRun-IsTold e r in
      (
        omega (arith, s),
        All-imp _ (λ x. IsEntry-later x le) c,
        All-imp _ (λ f. IsAloft-later f le) a,
      )
  CheckRun-IsTold e (run_cleared r) = let (s, c, a) = CheckRun-IsTold e r in (s, tt, a)
  CheckRun-IsTold e (check_begun bearer r stale) =
      let (s, c, a) = CheckRun-IsTold e r in
      (s, c, (record { since = s; before = omega arith; back = waiting }, a))
  CheckRun-IsTold e (check_read fs gs bearer began r) =
      let (s, c, a) = CheckRun-IsTold e r in
      let (before, f, after) = All-middle (IsAloft _ _) fs _ gs a in
      (
        s,
        c,
        All-append _ fs _ before (
          record {
            since = f.since;
            before = f.before;
            back = heard (record { at = _; after = f.before; past = omega arith; read = refl });
          },
          after,
        ),
      )
  CheckRun-IsTold {start} e (check_settled {t} {cache} fs gs f o r found) =
      let (s, c, a) = CheckRun-IsTold e r in
      let (before, aloft, after) = All-middle (IsAloft start t) fs f gs a in
      (s, settled-IsEntry cache f o found aloft c, All-append _ fs gs before after)
  CheckRun-IsTold e (check_failed fs gs f r) =
      let (s, c, a) = CheckRun-IsTold e r in
      let (before, aloft, after) = All-middle (IsAloft _ _) fs f gs a in
      (s, c, All-append _ fs gs before after)
