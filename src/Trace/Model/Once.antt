-- ===== src/Trace/Model/Once.antt =====
-- The tree of `buildTraceModel` as a whole: its roots are sorted at the end.
use rootprint.Common.{
  ◌≡◌, refl, ap, ◌∙◌, inl, inr, Text, text_eq, Bool, Bool-cases, some, List, [], ◌∷◌, map,
  map-append, if◌then◌else◌, includes, count, count-append, arith, All,
}
use rootprint.Common.Sort.{insert, sort, All-sort}
use rootprint.Trace.{TraceSpan, SpanNode}
use rootprint.Trace.Order.{preorder, preorder_list}
use rootprint.Trace.Model.{TraceModel, starts_earlier, by_id, build_trace_model, result_of}
use rootprint.Trace.Model.Visited.{ids, node_id}
use rootprint.Trace.Model.Walk.{nodes}
use rootprint.Trace.Model.Table.{by_id-IsKeyed, IsKeyed-IsNode, has-by_id, count-IsKeyed}
use rootprint.Trace.Model.Forest.{forest-once}
use rootprint.Trace.Model.Linked.{IsLinked, forest-IsLinked}

count-insert :
    (x : Text) (n : SpanNode) (ns : List SpanNode)
    → count x (map node_id (preorder_list (insert starts_earlier n ns)))
      ≡ count x (map node_id (preorder_list (n ∷ ns)))
unfolding insert preorder_list
count-insert x n [] = refl
count-insert x n (m ∷ ns) = elim (Bool-cases (starts_earlier m n)) [
  | inl e ↦ rw e (
      simp (map-append, count-append)
        (omega (
          arith,
          count-insert x n ns,
          ap (count x) (map-append node_id (preorder n) (preorder_list ns)),
          count-append x (map node_id (preorder n)) (map node_id (preorder_list ns)),
        )))
  | inr e ↦ rw e refl
]

count-sort_roots :
    (x : Text) (ns : List SpanNode)
    → count x (map node_id (preorder_list (sort starts_earlier ns)))
      ≡ count x (map node_id (preorder_list ns))
unfolding sort preorder_list
count-sort_roots x [] = refl
count-sort_roots x (n ∷ ns) =
    count-insert x n (sort starts_earlier ns)
    ∙ unfold preorder_list in simp (map-append, count-append, count-sort_roots x ns)

pub ids_of : TraceModel → List Text
ids_of m = map node_id (preorder_list m.roots)

module _ (before_name : Text → Text → Bool) where
  -- For any list of spans, with cycles, orphans and repeated ids, `buildTraceModel` ends, since as much fuel
  -- as there are spans is enough; each id of the list stands in its tree exactly once, and no other id does; and
  -- below a root, each node stands under the span that `byId` gives for its parent id, which is not itself.
  pub build_trace_model-Once :
      (spans : List TraceSpan)
      → (m : TraceModel) × (build_trace_model before_name spans ≡ some m)
        × ((x : Text) → count x (ids_of m) ≡ (if includes (ids spans) x then 1 else 0))
        × All (IsLinked (by_id [] spans)) m.roots
  unfolding build_trace_model result_of ids_of
  build_trace_model-Once spans =
      let table = by_id [] spans in
      let keyed = by_id-IsKeyed [] spans (record { apart = tt; own = tt }) in
      let counts : (x : Text)
          → count x (ids (nodes table)) ≡ (if includes (ids spans) x then 1 else 0) =
        λ x.
          count-IsKeyed table x keyed.apart keyed.own
          ∙ ap (λ b. if b then 1 else 0) (has-by_id [] spans x) in
      let (roots, visited, e, once) =
        forest-once table (IsKeyed-IsNode table keyed) (λ x. rw (counts x) (ground arith)) in
      (
        result_of before_name table roots,
        rw e refl,
        λ x. count-sort_roots x roots ∙ once x ∙ counts x,
        All-sort starts_earlier (IsLinked table) roots (forest-IsLinked table e),
      )
