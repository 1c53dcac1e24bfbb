-- ===== src/Trace/Order.antt =====
-- `spansInTreeOrder` of apps/web/src/lib/components/traces/span-stats.ts: the nodes of a forest, each
-- before its children, with an explicit stack in place of recursion.
use rootprint.Common.{
  ℕ, zero, suc, ◌+◌, ◌≤◌, ◌≡◌, refl, ap, sym, ◌∙◌, Option, none, some, List, [], ◌∷◌, ◌++◌, arith,
  append_assoc, append-nil,
}
use rootprint.Trace.{SpanNode, SpanNodes, node, nil, cons, to_list, children_of}

-- The stack has its top at the head; `none` means that the fuel ran out.
tree_order_loop : ℕ → List SpanNode → List SpanNode → Option (List SpanNode)
tree_order_loop fuel [] out = some out
tree_order_loop zero (n ∷ stack) out = none
tree_order_loop (suc fuel) (n ∷ stack) out =
    tree_order_loop fuel (children_of n ++ stack) (out ++ n ∷ [])

mutual
  pub size : SpanNode → ℕ
  size (node span depth children) = suc (size_all children)

  pub size_all : SpanNodes → ℕ
  size_all nil = 0
  size_all (cons n ns) = size n + size_all ns

unfoldable pub spans_in_tree_order : SpanNodes → Option (List SpanNode)
unfolding tree_order_loop size size_all
spans_in_tree_order roots = tree_order_loop (size_all roots) (to_list roots) []

-- The order by plain recursion.
unfoldable mutual
  pub preorder : SpanNode → List SpanNode
  preorder (node span depth children) = node span depth children ∷ preorder_all children

  pub preorder_all : SpanNodes → List SpanNode
  preorder_all nil = []
  preorder_all (cons n ns) = preorder n ++ preorder_all ns

size_list : List SpanNode → ℕ
size_list [] = 0
size_list (n ∷ ns) = size n + size_list ns

unfoldable pub preorder_list : List SpanNode → List SpanNode
preorder_list [] = []
preorder_list (n ∷ ns) = preorder n ++ preorder_list ns

size_list-append :
    (ns : SpanNodes) (stack : List SpanNode)
    → size_list (to_list ns ++ stack) ≡ size_all ns + size_list stack
unfolding size_list size_all
size_list-append nil stack = omega arith
size_list-append (cons n ns) stack = omega (arith, size_list-append ns stack)

pub preorder_list-append :
    (ns : SpanNodes) (stack : List SpanNode)
    → preorder_list (to_list ns ++ stack) ≡ preorder_all ns ++ preorder_list stack
unfolding preorder_list preorder_all
preorder_list-append nil stack = refl
preorder_list-append (cons n ns) stack = simp (preorder_list-append ns stack, append_assoc)

tree_order_loop_lem :
    (fuel : ℕ) (stack out : List SpanNode)
    → size_list stack ≤ fuel
    → tree_order_loop fuel stack out ≡ some (out ++ preorder_list stack)
unfolding tree_order_loop preorder_list size_list
tree_order_loop_lem fuel [] out h = ap some (sym (append-nil out))
tree_order_loop_lem zero (node s d ns ∷ stack) out h = absurd (unfold size in omega arith)
tree_order_loop_lem (suc fuel) (node s d ns ∷ stack) out h =
    tree_order_loop_lem fuel (to_list ns ++ stack) (out ++ node s d ns ∷ [])
      (unfold size in omega (arith, size_list-append ns stack))
    ∙ unfold preorder in simp (preorder_list-append ns stack, append_assoc)

pub preorder_list-to_list : (ns : SpanNodes) → preorder_list (to_list ns) ≡ preorder_all ns
unfolding preorder_list preorder_all
preorder_list-to_list nil = refl
preorder_list-to_list (cons n ns) = ap (λ r. preorder n ++ r) (preorder_list-to_list ns)

size_list-to_list : (ns : SpanNodes) → size_list (to_list ns) ≡ size_all ns
unfolding size_list size_all
size_list-to_list nil = refl
size_list-to_list (cons n ns) = ap (λ r. size n + r) (size_list-to_list ns)

-- The loop with the stack ends, and lists each node of the forest before its subtrees, in the order
-- of plain recursion.
pub spans_in_tree_order-eq-preorder :
    (roots : SpanNodes) → spans_in_tree_order roots ≡ some (preorder_all roots)
unfolding spans_in_tree_order
spans_in_tree_order-eq-preorder roots =
    tree_order_loop_lem (size_all roots) (to_list roots) [] (omega (arith, size_list-to_list roots))
    ∙ rw (preorder_list-to_list roots)
