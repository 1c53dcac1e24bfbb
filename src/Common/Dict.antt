-- ===== src/Common/Dict.antt =====
-- JavaScript's `Map`, `Set` and plain objects: entries in the order of insertion, where `set` on a
-- key that is there keeps its place.
use Prim.Native.Nat.{◌+◌, ◌≤◌}
use mathlib.Core.Path.{◌≡◌, refl, ap, sym, ◌∙◌, subst}
use mathlib.Core.Bool.{Bool, true, false, ◌||◌}
use mathlib.Core.Logic.{◌≢◌, inl, inr}
use mathlib.Core.Option.{Option, none, some, some-injective}
use mathlib.Core.List.{List, [], ◌∷◌}
use native.Mathlib.Omega.{arith}
use rootprint.Common.Tests.{if◌then◌else◌, Bool-cases, Eq, ◌==◌, ==-refl, ==-sound}
use rootprint.Common.Lists.{length, filter, All}

abbrev pub Dict {ℓ κ} : Type ℓ → Type κ → Type (ℓ ⊔ κ)
Dict K V = List (K × V)

abbrev pub is_some {ℓ} : {A : Type ℓ} → Option A → Bool
is_some none = false
is_some (some a) = true

module _ {ℓ κ} {K : Type ℓ} {V : Type κ} ⦃e : Eq K⦄ where
  unfoldable pub get : Dict K V → K → Option V
  get [] k = none
  get ((j, v) ∷ m) k = if j == k then some v else get m k

  abbrev pub has : Dict K V → K → Bool
  has m k = is_some (get m k)

  unfoldable pub set : Dict K V → K → V → Dict K V
  set [] k v = (k, v) ∷ []
  set ((j, w) ∷ m) k v = let rest = set m k v in if j == k then (j, v) ∷ m else (j, w) ∷ rest

  unfoldable pub delete : Dict K V → K → Dict K V
  delete [] k = []
  delete ((j, w) ∷ m) k = let rest = delete m k in if j == k then m else (j, w) ∷ rest

  pub get-set_self : (m : Dict K V) (k : K) (v : V) → get (set m k v) k ≡ some v
  unfolding get set
  get-set_self [] k v = rw (==-refl k)
  get-set_self ((j, w) ∷ m) k v = elim (Bool-cases (j == k)) [
    | inl h ↦ rw (h, get, h)
    | inr h ↦ rw (h, get, h) (get-set_self m k v)
  ]

  pub get-set_ne : (m : Dict K V) {k j : K} (v : V) → k ≢ j → get (set m k v) j ≡ get m j
  unfolding get set
  get-set_ne [] {k} {j} v h = elim (Bool-cases (k == j)) [
    | inl p ↦ absurd (h (==-sound k j p))
    | inr p ↦ rw p
  ]
  get-set_ne ((i, w) ∷ m) {k} {j} v h = elim (Bool-cases (i == k)) [
    | inl p ↦ elim (Bool-cases (i == j)) [
      | inl q ↦ absurd (h (cc (==-sound i k p, ==-sound i j q)))
      | inr q ↦ rw (p, q)
    ]
    | inr p ↦ rw p (ap (λ r. if i == j then some w else r) (get-set_ne m v h))
  ]

  pub get-set :
      (m : Dict K V) (k : K) (v : V) (j : K)
      → get (set m k v) j ≡ (if k == j then some v else get m j)
  get-set m k v j = elim (Bool-cases (k == j)) [
    | inl p ↦ rw p (ap (get (set m k v)) (sym (==-sound k j p)) ∙ get-set_self m k v)
    | inr p ↦ rw p (get-set_ne m v (λ (r : k ≡ j). cc (p, (e.same_iff k j).1 r)))
  ]

  -- A lookup in the entries whose keys pass a test.
  pub get-filter :
      (p : K → Bool) (m : Dict K V) (k : K)
      → get (filter (λ x. p x.0) m) k ≡ (if p k then get m k else none)
  unfolding get
  get-filter p [] k = ground arith
  get-filter p ((j, w) ∷ m) k = ground (arith, get-filter p m k, ==-sound j k)

  pub has-set : (m : Dict K V) (k : K) (v : V) (x : K) → has (set m k v) x ≡ (k == x || has m x)
  unfolding get set
  has-set [] k v x = ground arith
  has-set ((j, w) ∷ m) k v x = elim (Bool-cases (j == k)) [
    | inl p ↦ rw (p, get, ap (λ a. a == x) (==-sound j k p)) (ground arith)
    | inr p ↦ rw (p, get) (ground (arith, has-set m k v x))
  ]

  pub length-set :
      (m : Dict K V) (k : K) (v : V)
      → length (set m k v) ≡ (if has m k then length m else length m + 1)
  unfolding get set
  length-set [] k v = omega arith
  length-set ((j, w) ∷ m) k v = ground (arith, length-set m k v)

  pub length-delete-le : (m : Dict K V) (k : K) → length (delete m k) ≤ length m
  unfolding delete
  length-delete-le [] k = omega arith
  length-delete-le ((j, w) ∷ m) k = ground (arith, length-delete-le m k)

-- `[...map.values()]`
abbrev pub values {ℓ κ} : {K : Type ℓ} {V : Type κ} → Dict K V → List V
values [] = []
values ((k, v) ∷ m) = v ∷ values m

-- `[...map.keys()]`
abbrev pub keys {ℓ κ} : {K : Type ℓ} {V : Type κ} → Dict K V → List K
keys [] = []
keys ((k, v) ∷ m) = k ∷ keys m

module _ {ℓ κ} {K : Type ℓ} {V : Type κ} ⦃e : Eq K⦄ where
  -- No key stands twice.
  abbrev pub NoDup : Dict K V → Type κ
  NoDup [] = Unit
  NoDup ((k, v) ∷ m) = (get m k ≡ none) × NoDup m

  pub set-NoDup : (m : Dict K V) (k : K) (v : V) → NoDup m → NoDup (set m k v)
  unfolding set get
  set-NoDup [] k v h = (refl, tt)
  set-NoDup ((j, w) ∷ m) k v (p, h) = elim (Bool-cases (j == k)) [
    | inl q ↦ rw q (p, h)
    | inr q ↦
        rw q (
          get-set_ne m v (λ (r : k ≡ j). cc (q, (e.same_iff j k).1 (sym r))) ∙ p,
          set-NoDup m k v h,
        )
  ]

  All-get-cons :
      (j : K) (w : V) (m n : Dict K V)
      → get n j ≡ none
      → All (λ x. get n x.0 ≡ some x.1) m
      → All (λ x. get ((j, w) ∷ n) x.0 ≡ some x.1) m
  unfolding get
  All-get-cons j w [] n h _ = tt
  All-get-cons j w ((i, v) ∷ m) n h (p, hs) = elim (Bool-cases (j == i)) [
    | inl q ↦ cc (h, p, ap (get n) (==-sound j i q))
    | inr q ↦ (rw q p, All-get-cons j w m n h hs)
  ]

  -- Every entry is what a lookup of its key finds.
  pub NoDup-get : (m : Dict K V) → NoDup m → All (λ x. get m x.0 ≡ some x.1) m
  NoDup-get [] h = tt
  NoDup-get ((j, w) ∷ m) (p, h) =
      (unfold get in rw (==-refl j), All-get-cons j w m m p (NoDup-get m h))

pub All-values {ℓ κ μ} :
    {K : Type ℓ} {V : Type κ} (P : V → Type μ) (m : Dict K V)
    → All (λ x. P x.1) m
    → All P (values m)
All-values P [] h = tt
All-values P ((k, v) ∷ m) (p, h) = (p, All-values P m h)

module _ {ℓ κ μ} {K : Type ℓ} {V : Type κ} ⦃e : Eq K⦄ (P : K × V → Type μ) where
  pub All-set : (m : Dict K V) (k : K) (v : V) → P (k, v) → All P m → All P (set m k v)
  unfolding set
  All-set [] k v p _ = (p, tt)
  All-set ((j, w) ∷ m) k v p (q, h) = elim (Bool-cases (j == k)) [
    | inl r ↦ rw r (subst (λ i. P (i, v)) (sym (==-sound j k r)) p, h)
    | inr r ↦ rw r (q, All-set m k v p h)
  ]

  pub All-delete : (m : Dict K V) (k : K) → All P m → All P (delete m k)
  unfolding delete
  All-delete [] k h = tt
  All-delete ((j, w) ∷ m) k (q, h) = elim (Bool-cases (j == k)) [
    | inl r ↦ rw r h
    | inr r ↦ rw r (q, All-delete m k h)
  ]

  -- What is found under a key has the property.
  pub All-get : (m : Dict K V) (k : K) {v : V} → get m k ≡ some v → All P m → P (k, v)
  unfolding get
  All-get [] k found h = cc
  All-get ((j, w) ∷ m) k {v} found (q, h) = elim (Bool-cases (j == k)) [
    | inl r ↦
        let same : w ≡ v = some-injective w v (rw r at found) in
        subst (λ u. P (k, u)) same (subst (λ i. P (i, w)) (==-sound j k r) q)
    | inr r ↦ All-get m k (rw r at found) h
  ]
