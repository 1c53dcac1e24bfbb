-- ===== src/Trace/Model/Linked.antt =====
-- The links between the nodes of the tree that `buildTraceModel` makes.
use rootprint.Common.{
  All-filter_self, ℕ, zero, suc, ◌≡◌, refl, sym, ap, subst, inl, inr, Text, text_eq, ◌==◌, ==-sound,
  true, false, Bool-cases, Option, none, some, List, [], ◌∷◌, ◌++◌, filter, includes, length, All,
  All-append, All-filter, All-imp,
}
use mathlib.Core.Option.{some-injective}
use rootprint.Common.Dict
use rootprint.Common.Dict.{Dict}
use rootprint.Common.Sort.{sort, All-sort}
use rootprint.Trace.{TraceSpan, SpanNode, SpanNodes, node, nil, cons, span_of, to_list}
use rootprint.Trace.Model.{
  Walker, walk, walk_each, walk_rest, put_over, then_rest, forest, root_spans, kids, linked_to,
  is_child_of, is_unvisited, earlier,
}

abbrev Anywhere : TraceSpan → Type 0
Anywhere s = Unit

module _ (spans : Dict Text TraceSpan) where
  -- Each node below this one stands under the span that its own span is linked to.
  unfoldable mutual
    pub IsLinked : SpanNode → Type 0
    IsLinked (node s depth children) = AllLinked (λ t. linked_to spans t ≡ some s.span_id) children

    pub AllLinked : (TraceSpan → Type 0) → SpanNodes → Type 0
    AllLinked P nil = Unit
    AllLinked P (cons n ns) = P (span_of n) × IsLinked n × AllLinked P ns

  abbrev Walked : TraceSpan → Option (SpanNode × List Text) → Type 0
  Walked s none = Unit
  Walked s (some (n, visited)) = (span_of n ≡ s) × IsLinked n

  abbrev WalkedAll : (TraceSpan → Type 0) → Option (SpanNodes × List Text) → Type 0
  WalkedAll P none = Unit
  WalkedAll P (some (ns, visited)) = AllLinked P ns

  -- One walk, and then the walks of `others`.
  module _ (P : TraceSpan → Type 0) (c : TraceSpan) (p : P c) where
    WalkedAll-cons :
        (n : SpanNode)
        → (span_of n ≡ c) × IsLinked n
        → (o : Option (SpanNodes × List Text)) → WalkedAll P o
        → WalkedAll P (elim o [ none ↦ none | some (ns, visited) ↦ some (cons n ns, visited) ])
    unfolding AllLinked
    WalkedAll-cons n q none all = tt
    WalkedAll-cons n (e, linked) (some (ns, visited)) all = (subst P (sym e) p, linked, all)

    WalkedAll-first :
        (others : List Text → Option (SpanNodes × List Text))
        → ((visited : List Text) → WalkedAll P (others visited))
        → (o : Option (SpanNode × List Text)) → Walked c o
        → WalkedAll P (elim o [
          | none ↦ none
          | some (n, visited) ↦ elim (others visited) [
            | none ↦ none
            | some (ns, visited') ↦ some (cons n ns, visited')
          ]
        ])
    WalkedAll-first others all none q = tt
    WalkedAll-first others all (some (n, visited)) q =
        WalkedAll-cons n q (others visited) (all visited)

  module _ (w : Walker)
      (walks : (visited : List Text) (s : TraceSpan) → Walked s (w visited s)) where
    walk_each-AllLinked :
        (P : TraceSpan → Type 0) (visited : List Text) (cs : List TraceSpan)
        → All P cs
        → WalkedAll P (walk_each w visited cs)
    unfolding walk_each AllLinked
    walk_each-AllLinked P visited [] h = tt
    walk_each-AllLinked P visited (c ∷ cs) (p, h) =
        WalkedAll-first P c p (λ v. walk_each w v cs) (λ v. walk_each-AllLinked P v cs h)
          (w visited c) (walks visited c)

    walk_rest-AllLinked :
        (visited : List Text) (ss : List TraceSpan) → WalkedAll Anywhere (walk_rest w visited ss)
    unfolding walk_rest AllLinked
    walk_rest-AllLinked visited [] = tt
    walk_rest-AllLinked visited (s ∷ ss) = elim (Bool-cases (includes visited s.span_id)) [
      | inl seen ↦ rw seen (walk_rest-AllLinked visited ss)
      | inr unseen ↦ rw unseen (
          WalkedAll-first Anywhere s tt (λ v. walk_rest w v ss) (λ v. walk_rest-AllLinked v ss)
            (w visited s) (walks visited s))
    ]

  is_child_of_sound :
      (id : Text) (s : TraceSpan) → is_child_of spans id s ≡ true → linked_to spans s ≡ some id
  is_child_of_sound id s h = answer (linked_to spans s) h
    where
      answer : (o : Option Text) → elim o [ none ↦ false | some p ↦ p == id ] ≡ true → o ≡ some id
      answer none e = cc
      answer (some p) e = ap some (==-sound p id e)

  kids-linked : (id : Text) → All (λ t. linked_to spans t ≡ some id) (kids spans id)
  unfolding kids
  kids-linked id =
      All-imp (kids spans id) (is_child_of_sound id)
        (All-filter_self (is_child_of spans id) (Dict.values spans))

  put_over-Walked :
      (s : TraceSpan) (depth : ℕ) (o : Option (SpanNodes × List Text))
      → WalkedAll (λ t. linked_to spans t ≡ some s.span_id) o
      → Walked s (put_over s depth o)
  unfolding IsLinked
  put_over-Walked s depth none h = tt
  put_over-Walked s depth (some (children, visited)) h = (refl, h)

  walk-Walked :
      (fuel depth : ℕ) (visited : List Text) (s : TraceSpan)
      → Walked s (walk spans fuel depth visited s)
  unfolding walk
  walk-Walked zero depth visited s = tt
  walk-Walked (suc fuel) depth visited s =
      let seen = s.span_id ∷ visited in
      let fresh = filter (is_unvisited seen) (kids spans s.span_id) in
      let P : TraceSpan → Type 0 = λ t. linked_to spans t ≡ some s.span_id in
      put_over-Walked s depth (walk_each (walk spans fuel (suc depth)) seen (sort earlier fresh)) (
        walk_each-AllLinked (walk spans fuel (suc depth)) (walk-Walked fuel (suc depth)) P seen
          (sort earlier fresh)
          (All-sort earlier P fresh
            (All-filter P (is_unvisited seen) (kids spans s.span_id) (kids-linked s.span_id))))

  to_list-IsLinked :
      (P : TraceSpan → Type 0) (ns : SpanNodes) → AllLinked P ns → All IsLinked (to_list ns)
  unfolding AllLinked
  to_list-IsLinked P nil h = tt
  to_list-IsLinked P (cons n ns) (p, linked, all) = (linked, to_list-IsLinked P ns all)

  then_rest-IsLinked :
      (w : Walker)
      → ((visited : List Text) (s : TraceSpan) → Walked s (w visited s))
      → (ss : List TraceSpan) (o : Option (SpanNodes × List Text)) → WalkedAll Anywhere o
      → {roots : List SpanNode} {visited : List Text} → then_rest w ss o ≡ some (roots, visited)
      → All IsLinked roots
  then_rest-IsLinked w walks ss none h e = cc
  then_rest-IsLinked w walks ss (some (ns, visited)) h e =
      both (walk_rest w visited ss) (walk_rest-AllLinked w walks visited ss) e
    where
      both :
          (o : Option (SpanNodes × List Text))
          → WalkedAll Anywhere o
          → {roots : List SpanNode} {last : List Text}
          → ◌≡◌ {A = Option (List SpanNode × List Text)}
              (elim o [
                | none ↦ none
                | some (more, visited') ↦ some (to_list ns ++ to_list more, visited')
              ])
              (some (roots, last))
          → All IsLinked roots
      both none k e = cc
      both (some (more, visited')) k e =
          subst (All IsLinked) (ap (λ r. r.0) (some-injective _ _ e)) (
            All-append IsLinked (to_list ns) (to_list more) (to_list-IsLinked Anywhere ns h)
              (to_list-IsLinked Anywhere more k))

  all_spans : (ss : List TraceSpan) → All Anywhere ss
  all_spans [] = tt
  all_spans (s ∷ ss) = (tt, all_spans ss)

  pub forest-IsLinked :
      {roots : List SpanNode} {visited : List Text}
      → forest spans ≡ some (roots, visited)
      → All IsLinked roots
  unfolding forest
  forest-IsLinked e =
      let nodes = Dict.values spans in
      let w = walk spans (length nodes) 0 in
      let walks = walk-Walked (length nodes) 0 in
      then_rest-IsLinked w walks nodes (walk_each w [] (root_spans spans))
        (walk_each-AllLinked w walks Anywhere [] (root_spans spans) (all_spans (root_spans spans)))
        e
