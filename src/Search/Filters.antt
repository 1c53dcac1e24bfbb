-- ===== src/Search/Filters.antt =====
-- What adding and removing a filter does to the filters that are set.
use rootprint.Common.{
  text_eq, bool_eq, bool_beq, Eq, ◌==◌, ◌≡◌, inl, inr, refl, sym, ◌∙◌, ap, arith, Bool, true, false,
  not, Option, List, [], ◌∷◌, length, length-filter-le, nat_eq, if◌then◌else◌, any, filter,
  any-append, ==-sound, ==-sym, ==-like, Bool-cases,
}
use mathlib.Core.Option
use rootprint.Url.{Filter}
use rootprint.Search.{
  filter_eq, same_filter, has_filter, opposite, drop_filter, add_filter, remove_filter,
}

-- The filters of the page after an operation.
abbrev pub after : List Filter → Option (List Filter) → List Filter
after filters next = Option.get_or next filters

module _ {ℓ} {A : Type ℓ} ⦃e : Eq A⦄ where
  any-drop :
      (xs : List A) (x y : A)
      → any (λ f. f == y) (filter (λ f. not (f == x)) xs)
        ≡ (if y == x then false else any (λ f. f == y) xs)
  any-drop [] x y = ground arith
  any-drop (f ∷ xs) x y = ground (arith, any-drop xs x y, ==-like f x y, ==-like f y x, ==-sym x y)

-- No value of a field is both included and excluded.
unfoldable pub Consistent : List Filter → Type 0
Consistent fs = (y : Filter) → has_filter fs y ≡ true → has_filter fs (opposite y) ≡ false

has_filter-like :
    (fs : List Filter) (x y : Filter) → (y == x) ≡ true → has_filter fs y ≡ has_filter fs x
has_filter-like fs x y p = ap (has_filter fs) (==-sound y x p)

pub length-filter_self :
    (p : Filter → Bool) (xs : List Filter) → length (filter p xs) ≡ length xs → filter p xs ≡ xs
length-filter_self p [] h = refl
length-filter_self p (x ∷ xs) h = elim (Bool-cases (p x)) [
  | inl e ↦ rw (e) (ap (λ r. x ∷ r) (length-filter_self p xs (omega (arith, rw e at h))))
  | inr e ↦ absurd (omega (arith, length-filter-le p xs, rw e at h))
]

pub add_filter-sets :
    (fs : List Filter) (x y : Filter)
    → Consistent fs
    → has_filter (after fs (add_filter fs x)) y
      ≡ (if y == x then true else if y == opposite x then false else has_filter fs y)
unfolding add_filter has_filter Consistent
add_filter-sets fs x y h = elim (Bool-cases (has_filter fs x)) [
  | inl old ↦
      rw old
        (ground (arith, old, h x old, has_filter-like fs x y, has_filter-like fs (opposite x) y))
  | inr new ↦
      rw
        (
          new,
          any-append (λ f. f == y) (drop_filter fs (opposite x)) (x ∷ []),
          any-drop fs (opposite x) y,
          ==-sym x y,
        )
        (ground arith)
]

bool_beq-not : (a b : Bool) → bool_beq (not a) b ≡ bool_beq a (not b)
unfolding bool_beq
bool_beq-not true true = refl
bool_beq-not true false = refl
bool_beq-not false true = refl
bool_beq-not false false = refl

opposite-ne : (x : Filter) → (x == opposite x) ≡ false
opposite-ne x = elim (Bool-cases (x == opposite x)) [
  | inl e ↦ flip x.exclude (ap (λ f. f.exclude) (==-sound x (opposite x) e))
  | inr e ↦ e
]
  where
    flip : (b : Bool) → b ≡ not b → (x == opposite x) ≡ false
    flip true e = cc
    flip false e = cc

opposite-like : (x y : Filter) → (opposite y == x) ≡ (y == opposite x)
unfolding same_filter
opposite-like x y = rw (bool_beq-not y.exclude x.exclude) refl

bool_beq-not-not : (a b : Bool) → bool_beq (not a) (not b) ≡ bool_beq a b
unfolding bool_beq
bool_beq-not-not true true = refl
bool_beq-not-not true false = refl
bool_beq-not-not false true = refl
bool_beq-not-not false false = refl

opposite-both : (x y : Filter) → (opposite y == opposite x) ≡ (y == x)
unfolding same_filter
opposite-both x y = rw (bool_beq-not-not y.exclude x.exclude) refl

pub add_filter-Consistent :
    (fs : List Filter) (x : Filter) → Consistent fs → Consistent (after fs (add_filter fs x))
unfolding Consistent
add_filter-Consistent fs x h y set =
    add_filter-sets fs x (opposite y) h
    ∙ rw (opposite-like x y, opposite-both x y)
        (ground (
          arith,
          sym (add_filter-sets fs x y h) ∙ set,
          h y,
          ==-like y x (opposite x),
          ==-like y (opposite x) x,
          opposite-ne x,
        ))

-- Where no value is both included and excluded, an addition keeps it so, sets the filter and unsets its
-- opposite, and leaves any other filter as it was.
pub add_filter-Added :
    (fs : List Filter) (x : Filter)
    → Consistent fs
    → Consistent (after fs (add_filter fs x))
      × ((y : Filter)
          → has_filter (after fs (add_filter fs x)) y
            ≡ (if y == x then true else if y == opposite x then false else has_filter fs y))
add_filter-Added fs x h = (add_filter-Consistent fs x h, λ y. add_filter-sets fs x y h)

-- After a removal the filter is not set; any other filter is as it was.
pub remove_filter-unsets :
    (fs : List Filter) (x y : Filter)
    → has_filter (after fs (remove_filter fs x)) y ≡ (if y == x then false else has_filter fs y)
unfolding remove_filter has_filter
remove_filter-unsets fs x y = elim (Bool-cases (length (drop_filter fs x) == length fs)) [
  | inl same ↦ rw same (
      ap (λ fs'. has_filter fs' y)
        (sym (length-filter_self (λ f. not (f == x)) fs (==-sound _ _ same)))
      ∙ any-drop fs x y)
  | inr less ↦ rw less (any-drop fs x y)
]
