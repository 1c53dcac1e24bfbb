-- ===== src/Indexes/Deleted.antt =====
-- What is left of an index that is deleted.
use rootprint.Common.{◌≡◌, Text, text_eq, ◌==◌, List, [], filter, if◌then◌else◌}
use mathlib.Core.Option
use rootprint.Common.Dict
use rootprint.Common.Dict.{Dict}
use rootprint.Http.{Result, ok, fail, raise}
use rootprint.Keys.{ApiKeyCache}
use rootprint.Indexes.{default_settings, get_index_settings, Tables}

-- The rows of an index.
abbrev pub at_index : {A : Type 0} → (A → Text) → Text → List A → List A
at_index index_of j rows = filter (λ r. index_of r == j) rows

-- A deletion takes the rows of the index, and those only.
pub record IsDeleted {Hit : Type 0} (index_id : Text) (t t' : Tables Hit) : Type 0 where
  pub settings :
      (j : Text)
      → get_index_settings t'.settings j
        ≡ (if j == index_id then default_settings else get_index_settings t.settings j)
  pub snapshots :
      (j : Text)
      → at_index (λ i. i) j t'.snapshots
        ≡ (if j == index_id then [] else at_index (λ i. i) j t.snapshots)
  pub preferences :
      (j : Text)
      → at_index (λ r. r.0.1) j t'.preferences
        ≡ (if j == index_id then [] else at_index (λ r. r.0.1) j t.preferences)
  pub views :
      (j : Text)
      → at_index (λ v. v.index_id) j t'.views
        ≡ (if j == index_id then [] else at_index (λ v. v.index_id) j t.views)
  pub shares :
      (j : Text)
      → at_index (λ s. s.index_id) j t'.shares
        ≡ (if j == index_id then [] else at_index (λ s. s.index_id) j t.shares)
  pub api_keys :
      (j : Text)
      → at_index (λ k. k.index_id) j t'.api_keys
        ≡ (if j == index_id then [] else at_index (λ k. k.index_id) j t.api_keys)
  pub audits :
      (j : Text)
      → at_index (λ i. i) j t'.audits ≡ (if j == index_id then [] else at_index (λ i. i) j t.audits)

module _ {Hit : Type 0} where
  -- What is left after the search backend answered the deletion.
  abbrev pub LeftAfter :
      Text → Result (Unit {0}) → Tables Hit × ApiKeyCache → Tables Hit × ApiKeyCache → Type 0
  LeftAfter index_id (ok deleted) s s' = IsDeleted index_id s.0 s'.0 × (s'.1 ≡ [])
  LeftAfter index_id (fail e) s s' = s' ≡ s
  LeftAfter index_id (raise e) s s' = s' ≡ s
