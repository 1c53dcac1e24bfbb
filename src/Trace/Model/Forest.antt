-- ===== src/Trace/Model/Forest.antt =====
-- The walks of `buildTraceModel` from the roots and, after them, from the spans that no root leads to.
use rootprint.Common.{
  All-filter_self, ℕ, ◌+◌, ◌≤◌, ◌<◌, ◌≡◌, refl, inl, inr, Text, text_eq, ==-refl, true, false,
  Bool-cases, some, List, [], ◌∷◌, ◌++◌, map, map-append, includes, length, ltb, ltb→lt, ltb→le,
  length-filter-le, count, count-append, arith, All, All-filter,
}
use rootprint.Common.Dict.{Dict}
use rootprint.Trace.{TraceSpan, SpanNode, SpanNodes, nil, cons, to_list}
use rootprint.Trace.Order.{
  preorder, preorder_all, preorder_list, preorder_list-append, preorder_list-to_list,
}
use rootprint.Trace.Model.{
  Walker, walk, walk_each, walk_rest, root_spans, is_root, is_unvisited, then_rest, forest,
}
use rootprint.Trace.Model.Visited.{
  ids, node_id, All-zip, All-ids, count-filter-le, includes-count, unvisited, unvisited-le,
}
use rootprint.Trace.Model.Walk.{Once, IsNode, Walked, IsReady, IsWalker, nodes, walk_each-Walked}
use rootprint.Trace.Model.Visits.{parent_id-node, walk-IsWalker}

module _ (spans : Dict Text TraceSpan) where
  -- What the last loop adds: every one of `ss` is visited in the end.
  record Rested (ss : List TraceSpan) (visited visited' out : List Text) : Type 0 where
    adds : (x : Text) → count x visited' ≡ count x out + count x visited
    once : Once visited'
    known : (x : Text) → 0 < count x out → 0 < count x (ids (nodes spans))
    all_seen : All (λ s. 0 < count s.span_id visited') ss

  Rested-new :
      (s : TraceSpan) (ss : List TraceSpan) (visited visited' visited'' : List Text) (n : SpanNode)
      (ns : SpanNodes)
      → Walked spans (s.span_id ∷ []) visited visited' (map node_id (preorder n))
      → Rested ss visited' visited'' (map node_id (preorder_all ns))
      → Rested (s ∷ ss) visited visited'' (map node_id (preorder_all (cons n ns)))
  unfolding preorder_all
  Rested-new s ss visited visited' visited'' n ns first r =
      let out : List Text = map node_id (preorder n) in
      let out' : List Text = map node_id (preorder_all ns) in
      rw (map-append node_id (preorder n) (preorder_all ns)) (record {
        adds = λ x. omega (arith, first.adds x, r.adds x, count-append x out out');
        once = r.once;
        known = λ x p. elim (Bool-cases (ltb 0 (count x out))) [
          | inl here ↦ first.known x (ground (arith, here))
          | inr there ↦ r.known x (ground (arith, there, p, count-append x out out'))
        ];
        all_seen = (
          omega (
            arith,
            r.adds s.span_id,
            first.adds s.span_id,
            first.reached s.span_id (rw (==-refl s.span_id) (omega arith)),
          ),
          r.all_seen,
        );
      })

  walk_rest-new :
      (w : Walker) (s : TraceSpan) (ss : List TraceSpan) {visited visited' visited'' : List Text}
      {n : SpanNode} {ns : SpanNodes}
      → includes visited s.span_id ≡ false
      → w visited s ≡ some (n, visited')
      → walk_rest w visited' ss ≡ some (ns, visited'')
      → walk_rest w visited (s ∷ ss) ≡ some (cons n ns, visited'')
  unfolding walk_rest
  walk_rest-new w s ss new e e' = rw (new, e) (rw e' refl)

  module _ (w : Walker) (fuel : ℕ) (is : IsWalker spans w fuel) where
    walk_rest-Rested :
        (visited : List Text) (ss : List TraceSpan)
        → unvisited visited (nodes spans) ≤ fuel
        → Once visited
        → All (IsNode spans) ss
        → (ns : SpanNodes) × (visited' : List Text) × (walk_rest w visited ss ≡ some (ns, visited'))
          × Rested ss visited visited' (map node_id (preorder_all ns))
    unfolding walk_rest preorder_all
    walk_rest-Rested visited [] room once h = (
      nil,
      visited,
      refl,
      record {
        adds = λ x. omega arith;
        once = once;
        known = λ x p. absurd (omega (arith, p));
        all_seen = tt;
      },
    )
    walk_rest-Rested visited (s ∷ ss) room once (h, hs) =
        elim (Bool-cases (includes visited s.span_id)) [
          | inl old ↦
              let (ns, visited', e, r) = walk_rest-Rested visited ss room once hs in
              (
                ns,
                visited',
                rw old e,
                record {
                  adds = r.adds;
                  once = r.once;
                  known = r.known;
                  all_seen = (
                    ground (arith, old, includes-count visited s.span_id, r.adds s.span_id),
                    r.all_seen,
                  );
                },
              )
          | inr new ↦
              let (n, visited', e, first) =
                is visited s room once (ground (arith, new, includes-count visited s.span_id)) h in
              let (ns, visited'', e', r) =
                walk_rest-Rested visited' ss
                  (omega (
                    arith,
                    room,
                    unvisited-le visited visited' (nodes spans) (λ x. omega (arith, first.adds x)),
                  ))
                  first.once hs in
              (
                cons n ns,
                visited'',
                walk_rest-new w s ss new e e',
                Rested-new s ss visited visited' visited'' n ns first r,
              )
        ]

  module _ (all_nodes : All (IsNode spans) (nodes spans)) (apart : Once (ids (nodes spans))) where
    root-IsReady : (s : TraceSpan) → IsNode spans s → is_root spans s ≡ true → IsReady spans [] s
    root-IsReady s h root = record {
      unseen = refl;
      is_node = h;
      under = λ p e. absurd (ground (arith, root, e, parent_id-node spans s h));
    }

    root_spans-IsReady : All (IsReady spans []) (root_spans spans)
    unfolding root_spans
    root_spans-IsReady =
        All-zip (root_spans spans) root-IsReady
          (All-filter (IsNode spans) (is_root spans) (nodes spans) all_nodes)
          (All-filter_self (is_root spans) (nodes spans))

    count-forest :
        (starts visited visited' : List Text) (ns more : SpanNodes)
        → Walked spans starts [] visited (map node_id (preorder_all ns))
        → Rested (nodes spans) visited visited' (map node_id (preorder_all more))
        → (x : Text)
        → count x (map node_id (preorder_list (to_list ns ++ to_list more)))
          ≡ count x (ids (nodes spans))
    count-forest starts visited visited' ns more w r x =
        let out : List Text = map node_id (preorder_all ns) in
        let out' : List Text = map node_id (preorder_all more) in
        rw
          (
            preorder_list-append ns (to_list more),
            preorder_list-to_list more,
            map-append node_id (preorder_all ns) (preorder_all more),
            count-append x out out',
          )
          (elim (Bool-cases (ltb 0 (count x (ids (nodes spans))))) [
            | inl here ↦ omega (
              arith,
              apart x,
              ltb→lt 0 (count x (ids (nodes spans))) here,
              r.adds x,
              w.adds x,
              r.once x,
              All-ids (λ y. 0 < count y visited') (nodes spans) r.all_seen x (ground (arith, here)),
            )
            | inr gone ↦ elim (Bool-cases (ltb 0 (count x out))) [
              | inl first ↦ absurd (ground (arith, gone, w.known x (ground (arith, first))))
              | inr no_first ↦ elim (Bool-cases (ltb 0 (count x out'))) [
                | inl last ↦ absurd (ground (arith, gone, r.known x (ground (arith, last))))
                | inr no_last ↦ omega (
                  arith,
                  ltb→le 0 (count x (ids (nodes spans))) gone,
                  ltb→le 0 (count x out) no_first,
                  ltb→le 0 (count x out') no_last,
                )
              ]
            ]
          ])

    forest-eq :
        {ns more : SpanNodes} {visited visited' : List Text}
        → walk_each (walk spans (length (nodes spans)) 0) [] (root_spans spans) ≡ some (ns, visited)
        → walk_rest (walk spans (length (nodes spans)) 0) visited (nodes spans)
          ≡ some (more, visited')
        → forest spans ≡ some (to_list ns ++ to_list more, visited')
    unfolding forest root_spans
    forest-eq e e' = rw e (rw (e', then_rest) refl)

    pub forest-once :
        (roots : List SpanNode) × (visited : List Text) × (forest spans ≡ some (roots, visited))
        × ((x : Text) → count x (map node_id (preorder_list roots)) ≡ count x (ids (nodes spans)))
    unfolding unvisited root_spans
    forest-once =
        let fuel = length (nodes spans) in
        let is = walk-IsWalker spans all_nodes apart fuel 0 in
        let (ns, visited, e, w) =
          walk_each-Walked spans (walk spans fuel 0) fuel is [] (root_spans spans)
            (length-filter-le (is_unvisited []) (nodes spans)) (λ x. omega arith)
            (λ x. omega (arith, apart x, count-filter-le (is_root spans) x (nodes spans)))
            root_spans-IsReady in
        let (more, visited', e', r) =
          walk_rest-Rested (walk spans fuel 0) fuel is visited (nodes spans)
            (length-filter-le (is_unvisited visited) (nodes spans)) w.once all_nodes in
        (
          to_list ns ++ to_list more,
          visited',
          forest-eq e e',
          count-forest (ids (root_spans spans)) visited visited' ns more w r,
        )
