-- ===== src/Common/Sort.antt =====
-- `arr.toSorted(cmp)`: the stable sort of JavaScript, by a test `before y x` that `y` must stand
-- in front of `x`.
use Prim.Native.Nat.{ℕ, zero, suc, ◌≤◌}
use mathlib.Core.Path.{◌≡◌, refl, ap, ◌∙◌}
use mathlib.Core.Bool.{Bool, true, false, ◌||◌}
use mathlib.Core.Logic.{inl, inr}
use mathlib.Core.List.{List, [], ◌∷◌, map, Perm}
use mathlib.Core.List.Perm
use native.Mathlib.Omega.{arith}
use rootprint.Common.Tests.{if◌then◌else◌, Bool-cases, ltb, Text, text_eq}
use rootprint.Common.Lists.{All, All-take, any, take, count}

module _ {ℓ} {A : Type ℓ} (before : A → A → Bool) where
  -- A later element that ties with `x` stays behind it.
  unfoldable pub insert : A → List A → List A
  insert x [] = x ∷ []
  insert x (y ∷ ys) = let rest = insert x ys in if before y x then y ∷ rest else x ∷ y ∷ ys

  unfoldable pub sort : List A → List A
  unfolding insert
  sort [] = []
  sort (x ∷ xs) = insert x (sort xs)

  pub insert-perm : (x : A) (ys : List A) → Perm (insert x ys) (x ∷ ys)
  unfolding insert
  insert-perm x [] = Perm.refl _
  insert-perm x (y ∷ ys) = elim (Bool-cases (before y x)) [
    | inl h ↦ rw h (Perm.trans (Perm.cons y (insert-perm x ys)) (Perm.swap x y ys))
    | inr h ↦ rw h (Perm.refl _)
  ]

  pub sort-perm : (xs : List A) → Perm (sort xs) xs
  unfolding sort
  sort-perm [] = Perm.refl _
  sort-perm (x ∷ xs) = Perm.trans (insert-perm x (sort xs)) (Perm.cons x (sort-perm xs))

  pub All-insert {κ} : (P : A → Type κ) (x : A) (ys : List A) → P x → All P ys → All P (insert x ys)
  unfolding insert
  All-insert P x [] p _ = (p, tt)
  All-insert P x (y ∷ ys) p (q, h) = elim (Bool-cases (before y x)) [
    | inl e ↦ rw e (q, All-insert P x ys p h)
    | inr e ↦ rw e (p, (q, h))
  ]

  pub All-sort {κ} : (P : A → Type κ) (xs : List A) → All P xs → All P (sort xs)
  unfolding sort
  All-sort P [] h = tt
  All-sort P (x ∷ xs) (p, h) = All-insert P x (sort xs) p (All-sort P xs h)

  pub any-insert : (p : A → Bool) (x : A) (ys : List A) → any p (insert x ys) ≡ (p x || any p ys)
  unfolding insert
  any-insert p x [] = refl
  any-insert p x (y ∷ ys) = ground (arith, any-insert p x ys)

  pub any-sort : (p : A → Bool) (xs : List A) → any p (sort xs) ≡ any p xs
  unfolding sort
  any-sort p [] = refl
  any-sort p (x ∷ xs) = any-insert p x (sort xs) ∙ ap (λ b. p x || b) (any-sort p xs)

-- The keys never fall.
module _ {ℓ} {A : Type ℓ} (key : A → ℕ) where
  abbrev pub Ascending : List A → Type 0
  Ascending [] = Unit
  Ascending (x ∷ xs) = All (λ y. key x ≤ key y) xs × Ascending xs

  -- `(a, b) => key(a) - key(b)`
  abbrev pub ascending : A → A → Bool
  ascending y x = ltb (key y) (key x)

  All-le_trans : {a b : ℕ} (ys : List A) → a ≤ b → All (λ y. b ≤ key y) ys → All (λ y. a ≤ key y) ys
  All-le_trans [] h _ = tt
  All-le_trans (y ∷ ys) h (p, ps) = (omega arith, All-le_trans ys h ps)

  insert-Ascending : (x : A) (ys : List A) → Ascending ys → Ascending (insert ascending x ys)
  unfolding insert
  insert-Ascending x [] _ = (tt, tt)
  insert-Ascending x (y ∷ ys) (h, hs) = elim (Bool-cases (ltb (key y) (key x))) [
    | inl e ↦
        rw e (
          All-insert ascending (λ z. key y ≤ key z) x ys (ground arith) h,
          insert-Ascending x ys hs,
        )
    | inr e ↦ let le : key x ≤ key y = ground arith in rw e ((le, All-le_trans ys le h), (h, hs))
  ]

  pub sort-Ascending : (xs : List A) → Ascending (sort ascending xs)
  unfolding sort
  sort-Ascending [] = tt
  sort-Ascending (x ∷ xs) = insert-Ascending x (sort ascending xs) (sort-Ascending xs)

  abbrev pub Descending : List A → Type 0
  Descending [] = Unit
  Descending (x ∷ xs) = All (λ y. key y ≤ key x) xs × Descending xs

  -- `(a, b) => key(b) - key(a)`
  abbrev pub descending : A → A → Bool
  descending y x = ltb (key x) (key y)

  All-ge_trans : {a b : ℕ} (ys : List A) → b ≤ a → All (λ y. key y ≤ b) ys → All (λ y. key y ≤ a) ys
  All-ge_trans [] h _ = tt
  All-ge_trans (y ∷ ys) h (p, ps) = (omega arith, All-ge_trans ys h ps)

  insert-Descending : (x : A) (ys : List A) → Descending ys → Descending (insert descending x ys)
  unfolding insert
  insert-Descending x [] _ = (tt, tt)
  insert-Descending x (y ∷ ys) (h, hs) = elim (Bool-cases (ltb (key x) (key y))) [
    | inl e ↦ rw e (
      All-insert descending (λ z. key z ≤ key y) x ys (ground arith) h,
      insert-Descending x ys hs,
    )
    | inr e ↦ let le : key y ≤ key x = ground arith in rw e ((le, All-ge_trans ys le h), (h, hs))
  ]

  pub sort-Descending : (xs : List A) → Descending (sort descending xs)
  unfolding sort
  sort-Descending [] = tt
  sort-Descending (x ∷ xs) = insert-Descending x (sort descending xs) (sort-Descending xs)

  pub take-Descending : (n : ℕ) (xs : List A) → Descending xs → Descending (take n xs)
  take-Descending zero xs h = tt
  take-Descending (suc n) [] h = tt
  take-Descending (suc n) (x ∷ xs) (p, h) = (All-take _ n xs p, take-Descending n xs h)

  -- A test that looks at other things only where the keys tie.
  module _ (before : A → A → Bool) (falls : (y x : A) → before y x ≡ true → key x ≤ key y)
      (rises : (y x : A) → before y x ≡ false → key y ≤ key x) where
    insert-Descending_by : (x : A) (ys : List A) → Descending ys → Descending (insert before x ys)
    unfolding insert
    insert-Descending_by x [] _ = (tt, tt)
    insert-Descending_by x (y ∷ ys) (h, hs) = elim (Bool-cases (before y x)) [
      | inl e ↦ rw e (
        All-insert before (λ z. key z ≤ key y) x ys (falls y x e) h,
        insert-Descending_by x ys hs,
      )
      | inr e ↦ rw e ((rises y x e, All-ge_trans ys (rises y x e) h), (h, hs))
    ]

    pub sort-Descending_by : (xs : List A) → Descending (sort before xs)
    unfolding sort
    sort-Descending_by [] = tt
    sort-Descending_by (x ∷ xs) = insert-Descending_by x (sort before xs) (sort-Descending_by xs)

-- A sorted list has each name as often.
module _ {ℓ} {A : Type ℓ} (name : A → Text) (before : A → A → Bool) where
  count-insert :
      (n : Text) (x : A) (ys : List A)
      → count n (map name (insert before x ys)) ≡ count n (map name (x ∷ ys))
  unfolding insert
  count-insert n x [] = refl
  count-insert n x (y ∷ ys) = ground (arith, count-insert n x ys)

  pub count-sort :
      (n : Text) (xs : List A) → count n (map name (sort before xs)) ≡ count n (map name xs)
  unfolding sort
  count-sort n [] = refl
  count-sort n (x ∷ xs) = omega (arith, count-insert n x (sort before xs), count-sort n xs)
