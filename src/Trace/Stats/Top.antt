-- ===== src/Trace/Stats/Top.antt =====
-- `topOperations`: which operations are listed, and in which order.
use rootprint.Common.{
  text_eq, nat_eq, ℕ, suc, zero, ◌≤◌, ◌≡◌, refl, sym, ap, ◌∙◌, Bool, true, ◌&&◌, none, some, List,
  [], ◌∷◌, map, take, All, All-take, All-imp, arith, inl, inr, Bool-cases, Option-cases, filter,
  count, ◌⊎◌, length, length-take-le, any, Text, ◌==◌, ==-sound, ==-refl, subst,
}
use mathlib.Core.Option.{some-injective}
use rootprint.Common.Dict
use rootprint.Common.Dict.{Dict}
use rootprint.Common.Sort.{
  sort, descending, Descending, sort-Descending, take-Descending, All-sort, any-sort, count-sort,
}
use rootprint.Trace.{TraceSpan}
use rootprint.Trace.Stats.{OperationRollup, top_operations}
use rootprint.Trace.Stats.Operations.{
  total_duration, IsRollup, IsNamed, of_key, Group-none, groups_of, groups_of-Group,
  groups_of-NoDup, groups_of-entries,
}

module _ {A : Type 0} (key : A → ℕ) (p : A → Bool) (bound : ℕ) where
  any-le :
      (m : ℕ) (xs : List A)
      → All (λ x. p x ≡ true → key x ≡ bound) xs
      → All (λ y. key y ≤ m) xs
      → any p xs ≡ true
      → bound ≤ m
  any-le m [] h le e = cc
  any-le m (x ∷ xs) (h, hs) (le, les) e = elim (Bool-cases (p x)) [
    | inl here ↦ omega (arith, h here)
    | inr not_x ↦ any-le m xs hs les (ground (arith, not_x, e))
  ]

  -- An element of a falling list is among the first ones, or each of them is as large.
  any-take :
      (n : ℕ) (xs : List A)
      → Descending key xs
      → All (λ x. p x ≡ true → key x ≡ bound) xs
      → any p xs ≡ true
      → (any p (take n xs) ≡ true)
        ⊎ ((length (take n xs) ≡ n) × All (λ x. bound ≤ key x) (take n xs))
  any-take zero xs d h e = inr (refl, tt)
  any-take (suc n) [] d h e = cc
  any-take (suc n) (x ∷ xs) (d, ds) (h, hs) e = elim (Bool-cases (p x)) [
    | inl here ↦ inl (rw here refl)
    | inr not_x ↦
        let later : any p xs ≡ true = ground (arith, not_x, e) in
        elim (any-take n xs ds hs later) [
          | inl found ↦ inl (rw (not_x, found) refl)
          | inr (full, les) ↦ inr (omega (arith, full), (any-le (key x) xs hs d later, les))
        ]
  ]

count-take-le : (k : Text) (n : ℕ) (ks : List Text) → count k (take n ks) ≤ count k ks
count-take-le k zero ks = omega arith
count-take-le k (suc n) [] = omega arith
count-take-le k (suc n) (x ∷ ks) = omega (arith, count-take-le k n ks)

module _ (key : OperationRollup → Text) where
  map-take : (n : ℕ) (gs : List OperationRollup) → map key (take n gs) ≡ take n (map key gs)
  map-take zero gs = refl
  map-take (suc n) [] = refl
  map-take (suc n) (g ∷ gs) = ap (λ ks. key g ∷ ks) (map-take n gs)

  count-none :
      (k : Text) (m : Dict Text OperationRollup)
      → Dict.get m k ≡ none
      → All (λ x. key x.1 ≡ x.0) m
      → count k (map key (Dict.values m)) ≡ 0
  unfolding Dict.get
  count-none k [] e h = refl
  count-none k ((j, g) ∷ m) e (h, hs) = elim (Bool-cases (j == k)) [
    | inl same ↦ cc (rw same at e)
    | inr other ↦
        let rest = count-none k m (rw other at e) hs in rw (h, other) (omega (arith, rest))
  ]

  count-NoDup :
      (k : Text) (m : Dict Text OperationRollup)
      → Dict.NoDup m
      → All (λ x. key x.1 ≡ x.0) m
      → count k (map key (Dict.values m)) ≤ 1
  count-NoDup k [] _ h = omega arith
  count-NoDup k ((j, g) ∷ m) (new, d) (h, hs) = elim (Bool-cases (j == k)) [
    | inl same ↦
        let e = ==-sound j k same in
        rw (h, same) (omega (arith, count-none k m (ap (Dict.get m) (sym e) ∙ new) hs))
    | inr other ↦ let rest = count-NoDup k m d hs in rw (h, other) (omega (arith, rest))
  ]

-- The spans with a name of a service.
pub spans_of : Text → Text → List TraceSpan → List TraceSpan
spans_of service name spans = filter (λ s. s.service_name == service && s.name == name) spans

-- A row sums up the spans with its own service and name.
pub record SumsUp (stringify : List Text → Text) (spans : List TraceSpan) (g : OperationRollup)
    : Type 0 where
  pub keyed : g.key ≡ stringify (g.service_name ∷ g.name ∷ [])
  pub summed : IsRollup g (spans_of g.service_name g.name spans)

-- What the list says of one operation: it is in the list, it has no span, or five rows have as large a total.
pub data Placed (spans : List TraceSpan) (listed : List OperationRollup) (service name : Text)
    : Type 0 where
  listed_row :
      any (λ g. g.service_name == service && g.name == name) listed ≡ true
      → Placed spans listed service name
  no_span : spans_of service name spans ≡ [] → Placed spans listed service name
  behind_five :
      length listed ≡ 5
      → All (λ g. total_duration (spans_of service name spans) ≤ g.total_micros) listed
      → Placed spans listed service name

module _ (stringify : List Text → Text)
    (apart : (a b c d : Text)
      → stringify (a ∷ b ∷ []) ≡ stringify (c ∷ d ∷ [])
      → (a ≡ c) × (b ≡ d)) where
  same_operation :
      (a b c d : Text) → (stringify (a ∷ b ∷ []) == stringify (c ∷ d ∷ [])) ≡ (a == c && b == d)
  same_operation a b c d = elim (Bool-cases (stringify (a ∷ b ∷ []) == stringify (c ∷ d ∷ []))) [
    | inl same ↦
        let (e, f) = apart a b c d (==-sound _ _ same) in rw (same, e, f, ==-refl c, ==-refl d) refl
    | inr other ↦ elim (Bool-cases (a == c)) [
      | inl p ↦ elim (Bool-cases (b == d)) [
        | inl q ↦ cc (==-sound a c p, ==-sound b d q, other, ==-refl (stringify (c ∷ d ∷ [])))
        | inr q ↦ rw (other, p, q) refl
      ]
      | inr p ↦ rw (other, p) refl
    ]
  ]

  of_key-eq-spans_of :
      (service name : Text) (spans : List TraceSpan)
      → of_key stringify (stringify (service ∷ name ∷ [])) spans ≡ spans_of service name spans
  unfolding of_key spans_of
  of_key-eq-spans_of service name [] = refl
  of_key-eq-spans_of service name (s ∷ spans) =
      rw (same_operation s.service_name s.name service name, of_key-eq-spans_of service name spans)
        refl

  row-SumsUp :
      (spans : List TraceSpan) (k : Text) (g : OperationRollup)
      → IsNamed stringify k g
      → IsRollup g (of_key stringify k spans)
      → SumsUp stringify spans g
  row-SumsUp spans k g n h = record {
    keyed = n.keyed ∙ sym n.named;
    summed =
        subst (IsRollup g)
          (ap (λ k'. of_key stringify k' spans) (sym n.named)
            ∙ of_key-eq-spans_of g.service_name g.name spans)
          h;
  }

  module _ (service name : Text) where
    is_row : OperationRollup → Bool
    is_row g = g.service_name == service && g.name == name

    any-get :
        (m : Dict Text OperationRollup) (k : Text) (g : OperationRollup)
        → Dict.get m k ≡ some g
        → is_row g ≡ true
        → any is_row (Dict.values m) ≡ true
    unfolding Dict.get
    any-get [] k g e r = cc
    any-get ((j, g') ∷ m) k g e r = elim (Bool-cases (j == k)) [
      | inl same ↦ rw (some-injective g' g (rw same at e), r) refl
      | inr other ↦ ground (arith, any-get m k g (rw other at e) r)
    ]

    SumsUp-total :
        (spans : List TraceSpan) (g : OperationRollup)
        → SumsUp stringify spans g
        → is_row g ≡ true
        → g.total_micros ≡ total_duration (spans_of service name spans)
    unfolding is_row
    SumsUp-total spans g h e =
        let s : (g.service_name == service) ≡ true = ground (arith, e) in
        let n : (g.name == name) ≡ true = ground (arith, e) in
        h.summed.totalled
        ∙ ap (λ x. total_duration (spans_of x g.name spans)) (==-sound _ _ s)
        ∙ ap (λ x. total_duration (spans_of service x spans)) (==-sound _ _ n)

    top_operations-Placed :
        (spans : List TraceSpan)
        → All (SumsUp stringify spans) (Dict.values (groups_of stringify spans))
        → Placed spans (top_operations stringify spans) service name
    unfolding top_operations groups_of is_row
    top_operations-Placed spans rows =
        let k = stringify (service ∷ name ∷ []) in
        let values = Dict.values (groups_of stringify spans) in
        let by = descending (λ (g : OperationRollup). g.total_micros) in
        elim (Option-cases (Dict.get (groups_of stringify spans) k)) [
          | inl e ↦ no_span (
              sym (of_key-eq-spans_of service name spans)
              ∙ Group-none stringify _ e (groups_of-Group stringify spans k))
          | inr (g, e) ↦
              let n = (Dict.All-get _ _ k e (groups_of-entries stringify spans)).0 in
              let (a, b) = apart _ _ _ _ n.named in
              let found =
                any-get (groups_of stringify spans) k g e
                  (rw (a, b, ==-refl service) (==-refl name)) in
              elim (any-take (λ g. g.total_micros) is_row
                (total_duration (spans_of service name spans)) 5 (sort by values)
                (sort-Descending _ values)
                (All-sort by _ values (All-imp values (SumsUp-total spans) rows))
                (any-sort by is_row values ∙ found)) [
                  | inl listed ↦ listed_row listed
                  | inr (five, les) ↦ behind_five five les
                ]
        ]

  -- Where the keys of two pairs of a service and a name differ: at most five rows are listed, no two with one key, by
  -- falling total time. Each has the key of its service and name and sums up exactly the spans with these: their
  -- number, their total duration and one of the longest of them. An operation that has a span is listed, or five rows
  -- are listed and each has a total at least as large as that of the operation.
  pub top_operations-SumsUp :
      (spans : List TraceSpan)
      → (length (top_operations stringify spans) ≤ 5)
        × ((k : Text) → count k (map (λ g. g.key) (top_operations stringify spans)) ≤ 1)
        × Descending (λ g. g.total_micros) (top_operations stringify spans)
        × All (SumsUp stringify spans) (top_operations stringify spans)
        × ((service name : Text) → Placed spans (top_operations stringify spans) service name)
  unfolding top_operations groups_of
  top_operations-SumsUp spans =
      let groups = groups_of stringify spans in
      let by = descending (λ (g : OperationRollup). g.total_micros) in
      let sorted = sort by (Dict.values groups) in
      let entries = groups_of-entries stringify spans in
      let rows =
        Dict.All-values (SumsUp stringify spans) groups
          (All-imp groups (λ x h. row-SumsUp spans x.0 x.1 h.0 h.1) entries) in
      (
        length-take-le 5 sorted,
        λ k.
            let once =
              count-NoDup (λ g. g.key) k groups (groups_of-NoDup stringify spans)
                (All-imp groups (λ x h. h.0.keyed) entries) in
            let first = count-take-le k 5 (map (λ g. g.key) sorted) in
            rw (map-take (λ g. g.key) 5 sorted)
              (omega (arith, once, first, count-sort (λ g. g.key) by k (Dict.values groups))),
        take-Descending _ 5 sorted (sort-Descending _ (Dict.values groups)),
        All-take (SumsUp stringify spans) 5 sorted
            (All-sort by (SumsUp stringify spans) (Dict.values groups) rows),
        λ service name. top_operations-Placed service name spans rows,
      )
