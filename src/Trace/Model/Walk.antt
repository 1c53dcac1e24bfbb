-- ===== src/Trace/Model/Walk.antt =====
-- What a walk of `buildTraceModel` adds to the tree.
use rootprint.Common.{
  ℕ, ◌+◌, ◌≤◌, ◌<◌, ◌≡◌, refl, ap, ◌⊎◌, inl, inr, Text, text_eq, ◌==◌, ==-sound, ==-sym, false,
  Bool-cases, Option, none, some, List, [], ◌∷◌, ◌++◌, map, map-append, ltb, count, count-append,
  arith, All,
}
use rootprint.Common.Dict
use rootprint.Common.Dict.{Dict}
use rootprint.Trace.{TraceSpan, SpanNode, SpanNodes, nil, cons}
use rootprint.Trace.Order.{preorder, preorder_all}
use rootprint.Trace.Model.{Walker, walk_each, linked_to}
use rootprint.Trace.Model.Visited.{ids, node_id, All-zip, All-count, unvisited, unvisited-le}

-- Each id stands once at most.
abbrev pub Once : List Text → Type 0
Once xs = (x : Text) → count x xs ≤ 1

pub Once-cons : (a : Text) (xs : List Text) → count a xs ≡ 0 → Once xs → Once (a ∷ xs)
Once-cons a xs h once x = elim (Bool-cases (a == x)) [
  | inl e ↦ rw e (omega (arith, h, ap (λ b. count b xs) (==-sound a x e)))
  | inr e ↦ rw e (omega (arith, once x))
]

module _ (spans : Dict Text TraceSpan) where
  abbrev pub nodes : List TraceSpan
  nodes = Dict.values spans

  abbrev pub parent_of : Option TraceSpan → Option Text
  parent_of none = none
  parent_of (some s) = linked_to spans s

  -- The id of the span that the span of this id is put under.
  unfoldable pub parent_id : Text → Option Text
  parent_id x = parent_of (Dict.get spans x)

  pub record IsNode (s : TraceSpan) : Type 0 where
    pub found : Dict.get spans s.span_id ≡ some s
    pub listed : 0 < count s.span_id (ids nodes)

  -- What a walk from `starts` adds: each id of `out` once, and only spans below the starts.
  pub record Walked (starts visited visited' out : List Text) : Type 0 where
    pub adds : (x : Text) → count x visited' ≡ count x out + count x visited
    pub once : Once visited'
    pub below :
        (x : Text)
        → 0 < count x out
        → (0 < count x starts) ⊎ ((p : Text) × (parent_id x ≡ some p) × (0 < count p out))
    pub known : (x : Text) → 0 < count x out → 0 < count x (ids nodes)
    pub reached : (x : Text) → 0 < count x starts → 0 < count x out

  -- A span that is to be walked: its parent, if it has one, was visited before.
  pub record IsReady (visited : List Text) (s : TraceSpan) : Type 0 where
    pub unseen : count s.span_id visited ≡ 0
    pub is_node : IsNode s
    pub under : (p : Text) → parent_id s.span_id ≡ some p → 0 < count p visited

  abbrev pub IsWalker : Walker → ℕ → Type 0
  IsWalker w fuel =
      (visited : List Text) (s : TraceSpan)
      → unvisited visited nodes ≤ fuel
      → Once visited
      → count s.span_id visited ≡ 0
      → IsNode s
      → (n : SpanNode) × (visited' : List Text) × (w visited s ≡ some (n, visited'))
        × Walked (s.span_id ∷ []) visited visited' (map node_id (preorder n))

  -- A sibling is not below the one before it, so it is still unvisited.
  IsReady-next :
      (c d : TraceSpan) (visited visited' out : List Text)
      → Once visited
      → Walked (c.span_id ∷ []) visited visited' out
      → (c.span_id == d.span_id) ≡ false
      → IsReady visited d
      → IsReady visited' d
  IsReady-next c d visited visited' out once w apart ready = record {
    unseen = elim (Bool-cases (ltb 0 (count d.span_id out))) [
      | inl new ↦ elim (w.below d.span_id (ground (arith, new))) [
        | inl at_start ↦ absurd (ground (arith, at_start, apart))
        | inr (p, e, below) ↦ absurd (omega (arith, w.adds p, w.once p, ready.under p e, below))
      ]
      | inr old ↦ ground (arith, old, w.adds d.span_id, ready.unseen)
    ];
    is_node = ready.is_node;
    under = λ p e. omega (arith, w.adds p, ready.under p e);
  }

  Walked-append :
      (starts starts' visited visited' visited'' out out' : List Text)
      → Walked starts visited visited' out
      → Walked starts' visited' visited'' out'
      → Walked (starts ++ starts') visited visited'' (out ++ out')
  Walked-append starts starts' visited visited' visited'' out out' w w' = record {
    adds = λ x. omega (arith, w.adds x, w'.adds x, count-append x out out');
    once = w'.once;
    below = λ x p. elim (Bool-cases (ltb 0 (count x out))) [
      | inl here ↦ elim (w.below x (ground (arith, here))) [
        | inl s ↦ inl (omega (arith, s, count-append x starts starts'))
        | inr (q, e, b) ↦ inr (q, e, omega (arith, b, count-append q out out'))
      ]
      | inr there ↦ elim (w'.below x (ground (arith, there, p, count-append x out out'))) [
        | inl s ↦ inl (omega (arith, s, count-append x starts starts'))
        | inr (q, e, b) ↦ inr (q, e, omega (arith, b, count-append q out out'))
      ]
    ];
    known = λ x p. elim (Bool-cases (ltb 0 (count x out))) [
      | inl here ↦ w.known x (ground (arith, here))
      | inr there ↦ w'.known x (ground (arith, there, p, count-append x out out'))
    ];
    reached = λ x p. elim (Bool-cases (ltb 0 (count x starts))) [
      | inl here ↦ omega (arith, w.reached x (ground (arith, here)), count-append x out out')
      | inr there ↦ omega (
        arith,
        w'.reached x (ground (arith, there, p, count-append x starts starts')),
        count-append x out out',
      )
    ];
  }

  walk_each-cons :
      (w : Walker) (c : TraceSpan) (cs : List TraceSpan) {visited visited' visited'' : List Text}
      {n : SpanNode} {ns : SpanNodes}
      → w visited c ≡ some (n, visited')
      → walk_each w visited' cs ≡ some (ns, visited'')
      → walk_each w visited (c ∷ cs) ≡ some (cons n ns, visited'')
  unfolding walk_each
  walk_each-cons w c cs e e' = rw (e, walk_each) (rw (e', walk_each) refl)

  pub walk_each-Walked :
      (w : Walker) (fuel : ℕ)
      → IsWalker w fuel
      → (visited : List Text) (cs : List TraceSpan) → unvisited visited nodes ≤ fuel
      → Once visited
      → Once (ids cs)
      → All (IsReady visited) cs
      → (ns : SpanNodes) × (visited' : List Text) × (walk_each w visited cs ≡ some (ns, visited'))
        × Walked (ids cs) visited visited' (map node_id (preorder_all ns))
  unfolding walk_each preorder_all
  walk_each-Walked w fuel is visited [] room once apart ready = (
    nil,
    visited,
    refl,
    record {
      adds = λ x. omega arith;
      once = once;
      below = λ x p. absurd (omega (arith, p));
      known = λ x p. absurd (omega (arith, p));
      reached = λ x p. absurd (omega (arith, p));
    },
  )
  walk_each-Walked w fuel is visited (c ∷ cs) room once apart (r, ready) =
      let (n, visited', e, first) = is visited c room once r.unseen r.is_node in
      let (ns, visited'', e', others) =
        walk_each-Walked w fuel is visited' cs
          (omega
            (arith, room, unvisited-le visited visited' nodes (λ x. omega (arith, first.adds x))))
          first.once (λ x. omega (arith, apart x))
          (All-zip cs
            (λ d h k.
              IsReady-next c d visited visited' (map node_id (preorder n)) once first
                (ground (arith, k, ==-sym c.span_id d.span_id, apart d.span_id)) h)
            ready (All-count cs)) in
      (
        cons n ns,
        visited'',
        walk_each-cons w c cs e e',
        rw (map-append node_id (preorder n) (preorder_all ns)) (
            Walked-append (c.span_id ∷ []) (ids cs) visited visited' visited''
              (map node_id (preorder n)) (map node_id (preorder_all ns)) first others),
      )
