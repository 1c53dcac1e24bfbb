-- ===== src/Search/Chosen.antt =====
-- Which levels are chosen by the filters, and whether a click would choose all of them.
use rootprint.Common.{
  bool_beq, Text, text_eq, bool_eq, ◌==◌, ◌≡◌, inl, inr, refl, sym, ◌∙◌, ap, arith, Bool, true,
  false, not, ◌&&◌, Option, some, List, [], ◌∷◌, ◌++◌, length, nat_eq, filter, leb, includes, all,
  none, ◌≤◌, ◌||◌, ==-sound, ==-refl, Bool-cases,
}
use mathlib.Core.Option
use rootprint.Url.{Filter}
use rootprint.Search.{unknown_level, opposite, positive_levels, filter_eq, same_filter, has_filter}

abbrev pub level : Text → Text → Filter
level level_field value = record { field = level_field; value = value; exclude = false }

-- A click on `value` would leave every known level included, and no other one, with none excluded.
pub record WouldChooseAll (fs : List Filter) (level_field : Text) (known : List Text) (value : Text)
    : Type 0 where
  pub several : 2 ≤ length known
  pub none_excluded : (v : Text) → has_filter fs (opposite (level level_field v)) ≡ false
  pub others_chosen :
      (v : Text)
      → includes known v ≡ true
      → (v == value) ≡ false
      → has_filter fs (level level_field v) ≡ true
  pub only_known :
      (v : Text)
      → has_filter fs (level level_field v) ≡ true
      → includes known v || v == value ≡ true

-- What the included levels say of the filters.
abbrev pub AreChosen : List Filter → Text → Option (List Text) → Type 0
AreChosen fs level_field none = (v : Text) × (has_filter fs (opposite (level level_field v)) ≡ true)
AreChosen fs level_field (some vs) =
    ((v : Text) → includes vs v ≡ has_filter fs (level level_field v))
    × ((v : Text) → has_filter fs (opposite (level level_field v)) ≡ false)

module _ (f : Filter) (fs : List Filter) (level_field : Text) where
  other-AreChosen :
      (o : Option (List Text))
      → (f.field == level_field) ≡ false
      → AreChosen fs level_field o
      → AreChosen (f ∷ fs) level_field o
  unfolding has_filter same_filter
  other-AreChosen none e (v, h) = (v, ground (arith, h))
  other-AreChosen (some vs) e (h, k) = (λ v. rw e (h v), λ v. rw e (k v))

  chosen-AreChosen :
      (o : Option (List Text))
      → (f.field == level_field) ≡ true
      → f.exclude ≡ false
      → AreChosen fs level_field o
      → AreChosen (f ∷ fs) level_field (Option.map (λ vs. f.value ∷ vs) o)
  unfolding has_filter same_filter bool_beq
  chosen-AreChosen none e out (v, h) = (v, ground (arith, h))
  chosen-AreChosen (some vs) e out (h, k) = (
    λ v. elim (Bool-cases (f.value == v)) [
      | inl same ↦ rw (e, out, same) refl
      | inr other ↦ rw (e, out, other) (h v)
    ],
    λ v. elim (Bool-cases (f.value == v)) [
      | inl same ↦ rw (e, out, same) (k v)
      | inr other ↦ rw (e, out, other) (k v)
    ],
  )

pub positive_levels-AreChosen :
    (fs : List Filter) (level_field : Text)
    → AreChosen fs level_field (positive_levels level_field fs)
unfolding positive_levels has_filter same_filter bool_beq
positive_levels-AreChosen [] level_field = (λ v. refl, λ v. refl)
positive_levels-AreChosen (f ∷ fs) level_field =
    let rest = positive_levels-AreChosen fs level_field in
    elim (Bool-cases (f.field == level_field)) [
      | inr other ↦
          rw other (other-AreChosen f fs level_field (positive_levels level_field fs) other rest)
      | inl here ↦ elim (Bool-cases f.exclude) [
        | inl out ↦ rw (here, out) (f.value, ground (arith, here, out, ==-refl f.value))
        | inr plain ↦
            simp (here, plain)
              (chosen-AreChosen f fs level_field (positive_levels level_field fs) here plain rest)
      ]
    ]

includes-all :
    (p : Text → Bool) (ts : List Text) (v : Text)
    → all p ts ≡ true
    → includes ts v ≡ true
    → p v ≡ true
includes-all p [] v h e = cc
includes-all p (t ∷ ts) v h e =
    ground (arith, h, e, includes-all p ts v, λ (s : (t == v) ≡ true). ap p (==-sound t v s))

all-includes :
    (p : Text → Bool) (ts : List Text)
    → ((v : Text) → includes ts v ≡ true → p v ≡ true)
    → all p ts ≡ true
all-includes p [] h = refl
all-includes p (t ∷ ts) h =
    rw (h t (rw (==-refl t) refl), all-includes p ts (λ v e. h v (rw e (ground arith)))) refl

abbrev pub known_levels : List Text → List Text
known_levels levels = filter (λ n. not (n == unknown_level)) levels

-- The test that the chip makes, of the included levels.
abbrev pub selects : List Text → Text → Option (List Text) → Bool
selects known value o = leb 2 (length known) && elim o [
  | none ↦ false
  | some positive ↦
      not (includes positive value)
      && all (λ v. v == value || includes positive v) known
      && all (λ v. includes (known ++ value ∷ []) v) positive
]

text_swap : (a b : Text) → (a == b) ≡ (b == a)
text_swap a b = elim (Bool-cases (a == b)) [
  | inl same ↦ let e = ==-sound a b same in rw e refl
  | inr other ↦ elim (Bool-cases (b == a)) [
    | inl same ↦ let e = ==-sound b a same in rw e refl
    | inr other' ↦ cc (other, other')
  ]
]

includes-append_last :
    (known : List Text) (value v : Text)
    → includes (known ++ value ∷ []) v ≡ (includes known v || v == value)
includes-append_last [] value v = ground (arith, text_swap value v)
includes-append_last (t ∷ known) value v = ground (arith, includes-append_last known value v)

module _ (fs : List Filter) (known : List Text) (level_field value : Text) where
  pub selects-WouldChooseAll :
      (o : Option (List Text))
      → AreChosen fs level_field o
      → selects known value o ≡ true
      → WouldChooseAll fs level_field known value
  selects-WouldChooseAll none chosen t = ground (arith, t)
  selects-WouldChooseAll (some vs) (h, k) t = record {
    several = ground (arith, t);
    none_excluded = k;
    others_chosen = λ v e other.
        let p = includes-all (λ v. v == value || includes vs v) known v (ground (arith, t)) e in
        ground (arith, p, other, h v);
    only_known = λ v e.
        let p =
          includes-all (λ v. includes (known ++ value ∷ []) v) vs v (ground (arith, t)) (h v ∙ e) in
        ground (arith, p, includes-append_last known value v);
  }

  pub WouldChooseAll-selects :
      (o : Option (List Text))
      → AreChosen fs level_field o
      → has_filter fs (level level_field value) ≡ false
      → WouldChooseAll fs level_field known value
      → selects known value o ≡ true
  WouldChooseAll-selects none (v, h) new w = cc (w.none_excluded v, h)
  WouldChooseAll-selects (some vs) (h, k) new w =
      let others =
        all-includes (λ v. v == value || includes vs v) known
          (λ v e. (elim (Bool-cases (v == value)) [
            | inl same ↦ rw same refl
            | inr other ↦ rw (other, h v) (w.others_chosen v e other)
          ])) in
      let mine =
        all-includes (λ v. includes (known ++ value ∷ []) v) vs
          (λ v e. includes-append_last known value v ∙ w.only_known v (sym (h v) ∙ e)) in
      ground (arith, others, mine, h value, new, w.several)
