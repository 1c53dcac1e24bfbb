-- ===== src/Trace/Model/Visits.antt =====
-- The walk of a span in `buildTraceModel` and its fuel.
use rootprint.Common.{
  ℕ, zero, suc, ◌<◌, ◌≡◌, refl, sym, ap, ◌∙◌, subst, inl, inr, Text, text_eq, ◌==◌, ==-refl,
  ==-sound, true, Bool-cases, Option, some, Option-cases, List, [], ◌∷◌, map, filter, count, arith,
  All, All-filter, All-imp, All-filter_self,
}
use mathlib.Core.Option
use rootprint.Common.Dict.{Dict}
use rootprint.Common.Sort.{sort, All-sort}
use rootprint.Trace.{TraceSpan, node}
use rootprint.Trace.Order.{preorder, preorder_all}
use rootprint.Trace.Model.{walk, kids, linked_to, is_child_of, earlier, is_unvisited}
use rootprint.Trace.Model.Visited.{
  ids, node_id, includes-count, count-sort, count-filter-le, All-zip, All-ids, unvisited-lt,
}
use rootprint.Trace.Model.Walk.{
  Once, Once-cons, nodes, parent_of, parent_id, IsNode, Walked, IsReady, IsWalker, walk_each-Walked,
}

module _ (spans : Dict Text TraceSpan) where
  pub parent_id-node :
      (c : TraceSpan) → (IsNode spans) c → (parent_id spans) c.span_id ≡ linked_to spans c
  unfolding parent_id
  parent_id-node c h = ap (parent_of spans) h.found

  parent-child :
      (id : Text) (c : TraceSpan)
      → is_child_of spans id c ≡ true
      → (IsNode spans) c
      → (parent_id spans) c.span_id ≡ some id
  parent-child id c child h = elim (Option-cases (linked_to spans c)) [
    | inl e ↦ absurd (ground (arith, child, e))
    | inr (p, e) ↦ parent_id-node c h ∙ e ∙ ap some (==-sound p id (ground (arith, child, e)))
  ]

  child-IsReady :
      (s c : TraceSpan) (visited : List Text)
      → (IsNode spans) c
      → (parent_id spans) c.span_id ≡ some s.span_id
      → is_unvisited (s.span_id ∷ visited) c ≡ true
      → (IsReady spans) (s.span_id ∷ visited) c
  child-IsReady s c visited h parent new = record {
    unseen = ground (arith, new, includes-count (s.span_id ∷ visited) c.span_id);
    is_node = h;
    under = λ p e.
        rw (ap (λ (o : Option Text). Option.get_or o p) (sym e ∙ parent))
          (rw (==-refl s.span_id) (omega arith));
  }

  Walked-node :
      (s : TraceSpan) (starts visited visited' out : List Text)
      → count s.span_id visited ≡ 0
      → (IsNode spans) s
      → ((x : Text) → 0 < count x starts → (parent_id spans) x ≡ some s.span_id)
      → (Walked spans) starts (s.span_id ∷ visited) visited' out
      → (Walked spans) (s.span_id ∷ []) visited visited' (s.span_id ∷ out)
  Walked-node s starts visited visited' out unseen h under w = record {
    adds = λ x. omega (arith, w.adds x);
    once = w.once;
    below = λ x p. elim (Bool-cases (s.span_id == x)) [
      | inl e ↦ inl (rw e (omega arith))
      | inr e ↦ elim (w.below x (ground (arith, p, e))) [
        | inl q ↦ inr (s.span_id, under x q, rw (==-refl s.span_id) (omega arith))
        | inr (q, e', b) ↦ inr (q, e', omega (arith, b))
      ]
    ];
    known = λ x p. elim (Bool-cases (s.span_id == x)) [
      | inl e ↦ subst (λ y. 0 < count y (ids (nodes spans))) (==-sound s.span_id x e) h.listed
      | inr e ↦ w.known x (ground (arith, p, e))
    ];
    reached = λ x p. omega (arith, p);
  }

  -- The children that the walk of `s` goes on to, in its order.
  to_walk : TraceSpan → List Text → List TraceSpan
  to_walk s visited =
      sort earlier (filter (is_unvisited (s.span_id ∷ visited)) (kids spans s.span_id))

  module _ (all_nodes : All (IsNode spans) (nodes spans)) (apart : Once (ids (nodes spans))) where
    kids-under :
        (id : Text)
        → All (λ c. (IsNode spans) c × ((parent_id spans) c.span_id ≡ some id)) (kids spans id)
    unfolding kids
    kids-under id =
        All-zip (kids spans id) (λ c h child. (h, parent-child id c child h))
          (All-filter (IsNode spans) (is_child_of spans id) (nodes spans) all_nodes)
          (All-filter_self (is_child_of spans id) (nodes spans))

    to_walk-IsReady :
        (s : TraceSpan) (visited : List Text)
        → All
            (λ c.
              (IsReady spans) (s.span_id ∷ visited) c
              × ((parent_id spans) c.span_id ≡ some s.span_id))
            (to_walk s visited)
    unfolding to_walk
    to_walk-IsReady s visited =
        let new = is_unvisited (s.span_id ∷ visited) in
        let ks = kids spans s.span_id in
        All-sort earlier _ (filter new ks) (
          All-zip (filter new ks) (λ c (h, under) n. (child-IsReady s c visited h under n, under))
            (All-filter _ new ks (kids-under s.span_id)) (All-filter_self new ks))

    count-to_walk-le : (s : TraceSpan) (visited : List Text) → Once (ids (to_walk s visited))
    unfolding to_walk kids
    count-to_walk-le s visited x =
        let new = is_unvisited (s.span_id ∷ visited) in
        omega (
          arith,
          apart x,
          count-sort earlier x (filter new (kids spans s.span_id)),
          count-filter-le new x (kids spans s.span_id),
          count-filter-le (is_child_of spans s.span_id) x (nodes spans),
        )

    pub walk-IsWalker : (fuel depth : ℕ) → (IsWalker spans) (walk spans fuel depth) fuel
    unfolding walk to_walk preorder preorder_all
    walk-IsWalker zero depth visited s room once unseen h =
        absurd (omega (arith, room, unvisited-lt s.span_id visited (nodes spans) unseen h.listed))
    walk-IsWalker (suc fuel) depth visited s room once unseen h =
        let (ns, visited', e, w) =
          (walk_each-Walked spans) (walk spans fuel (suc depth)) fuel
            (walk-IsWalker fuel (suc depth)) (s.span_id ∷ visited) (to_walk s visited)
            (omega (arith, room, unvisited-lt s.span_id visited (nodes spans) unseen h.listed))
            (Once-cons s.span_id visited unseen once) (count-to_walk-le s visited)
            (All-imp (to_walk s visited) (λ c (r, u). r) (to_walk-IsReady s visited)) in
        (
          node s depth ns,
          visited',
          rw e refl,
          Walked-node s (ids (to_walk s visited)) visited visited' (map node_id (preorder_all ns))
              unseen h
              (All-ids (λ x. (parent_id spans) x ≡ some s.span_id) (to_walk s visited)
                (All-imp (to_walk s visited) (λ c (r, u). u) (to_walk-IsReady s visited)))
              w,
        )
