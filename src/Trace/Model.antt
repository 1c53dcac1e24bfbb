-- ===== src/Trace/Model.antt =====
-- The tree of a trace, `buildTraceModel` of apps/web/src/lib/components/traces/trace-model.ts. A span is
-- known by its id, since `byId` holds one object for each; `before_name` is the test that
-- `a.localeCompare(b)` stands for.
pub mod Visited
pub mod Walk
pub mod Visits
pub mod Table
pub mod Forest
pub mod Linked
pub mod Once
use rootprint.Common.{
  ℕ, zero, suc, ◌+◌, max, Text, text_eq, nat_eq, ◌==◌, Bool, true, false, not, ◌&&◌, ◌||◌, Option,
  none, some, List, [], ◌∷◌, ◌++◌, if◌then◌else◌, is_empty, filter, map, includes, length, ltb,
}
use mathlib.Core.Option
use rootprint.Common.Dict
use rootprint.Common.Dict.{Dict}
use rootprint.Common.Sort.{sort, ascending}
use rootprint.Trace.{TraceSpan, SpanNode, SpanNodes, node, nil, cons, span_of, to_list}

pub record ServiceCount : Type 0 where
  pub name : Text
  pub count : ℕ

-- `resources`, `traceStartMicros` and `byId`, which are handed on as they are, are left out.
pub record TraceModel : Type 0 where
  pub roots : List SpanNode
  pub span_count : ℕ
  pub duration_micros : ℕ
  pub services : List ServiceCount
  pub error_count : ℕ
  pub orphan_count : ℕ

-- A later span with the id of an earlier one takes its place.
unfoldable pub by_id : Dict Text TraceSpan → List TraceSpan → Dict Text TraceSpan
unfolding Dict.set
by_id spans [] = spans
by_id spans (s ∷ rest) = by_id (Dict.set spans s.span_id s) rest

-- `node.parentSpanId ? byId.get(node.parentSpanId) : undefined`
pub parent_in : Dict Text TraceSpan → TraceSpan → Option TraceSpan
unfolding Dict.get
parent_in spans s = elim s.parent_span_id [
  | none ↦ none
  | some p ↦ if is_empty p then none else Dict.get spans p
]

-- `parent && parent !== node`: the id of the span that the node is put under.
pub linked_to : Dict Text TraceSpan → TraceSpan → Option Text
unfolding parent_in
linked_to spans s = elim (parent_in spans s) [
  | none ↦ none
  | some p ↦ if p.span_id == s.span_id then none else some p.span_id
]

abbrev pub is_child_of : Dict Text TraceSpan → Text → TraceSpan → Bool
is_child_of spans id s = elim (linked_to spans s) [ none ↦ false | some p ↦ p == id ]

abbrev pub is_root : Dict Text TraceSpan → TraceSpan → Bool
is_root spans s = elim (linked_to spans s) [ none ↦ true | some p ↦ false ]

-- The children that the second loop gives to a node.
pub kids : Dict Text TraceSpan → Text → List TraceSpan
unfolding linked_to
kids spans id = filter (is_child_of spans id) (Dict.values spans)

pub root_spans : Dict Text TraceSpan → List TraceSpan
unfolding linked_to
root_spans spans = filter (is_root spans) (Dict.values spans)

has_parent_id : TraceSpan → Bool
has_parent_id s = elim s.parent_span_id [ none ↦ false | some p ↦ not (is_empty p) ]

is_orphan : Dict Text TraceSpan → TraceSpan → Bool
unfolding parent_in has_parent_id
is_orphan spans s = has_parent_id s && (elim (parent_in spans s) [ none ↦ true | some p ↦ false ])

abbrev pub earlier : TraceSpan → TraceSpan → Bool
earlier = ascending (λ s. s.start_offset_micros)

abbrev pub is_unvisited : List Text → TraceSpan → Bool
is_unvisited visited s = not (includes visited s.span_id)

abbrev pub Walker : Type 0
Walker = List Text → TraceSpan → Option (SpanNode × List Text)

-- `for (const child of …) walk(child, …)`: one walk after the other.
pub walk_each : Walker → List Text → List TraceSpan → Option (SpanNodes × List Text)
walk_each walk visited [] = some (nil, visited)
walk_each walk visited (c ∷ cs) = elim (walk visited c) [
  | none ↦ none
  | some (n, visited') ↦ elim (walk_each walk visited' cs) [
    | none ↦ none
    | some (ns, visited'') ↦ some (cons n ns, visited'')
  ]
]

abbrev pub put_over : TraceSpan → ℕ → Option (SpanNodes × List Text) → Option (SpanNode × List Text)
put_over s depth none = none
put_over s depth (some (children, visited)) = some (node s depth children, visited)

-- `none` means that the fuel ran out: the stack of JavaScript has no bound here.
pub walk : Dict Text TraceSpan → ℕ → ℕ → Walker
unfolding walk_each kids sort
walk spans zero depth visited s = none
walk spans (suc fuel) depth visited s =
    let seen = s.span_id ∷ visited in
    put_over s depth (
      walk_each (walk spans fuel (suc depth)) seen
        (sort earlier (filter (is_unvisited seen) (kids spans s.span_id))))

-- The members of cycles, each of which becomes a root if nothing before has visited it.
pub walk_rest : Walker → List Text → List TraceSpan → Option (SpanNodes × List Text)
walk_rest walk visited [] = some (nil, visited)
walk_rest walk visited (s ∷ rest) =
    if includes visited s.span_id then walk_rest walk visited rest else (elim (walk visited s) [
      | none ↦ none
      | some (n, visited') ↦ elim (walk_rest walk visited' rest) [
        | none ↦ none
        | some (ns, visited'') ↦ some (cons n ns, visited'')
      ]
    ])

abbrev pub then_rest :
    Walker → List TraceSpan → Option (SpanNodes × List Text) → Option (List SpanNode × List Text)
then_rest walk nodes none = none
then_rest walk nodes (some (roots, visited)) = elim (walk_rest walk visited nodes) [
  | none ↦ none
  | some (more, visited') ↦ some (to_list roots ++ to_list more, visited')
]

-- The roots in the order of the walks, and the ids that were visited.
pub forest : Dict Text TraceSpan → Option (List SpanNode × List Text)
unfolding walk walk_each walk_rest root_spans
forest spans =
    let nodes = Dict.values spans in
    let w = walk spans (length nodes) 0 in then_rest w nodes (walk_each w [] (root_spans spans))

pub count_services : Dict Text ℕ → List TraceSpan → Dict Text ℕ
unfolding Dict.get Dict.set
count_services counts [] = counts
count_services counts (s ∷ spans) =
    count_services
      (Dict.set counts s.service_name (suc (Option.get_or (Dict.get counts s.service_name) 0)))
      spans

longest : ℕ → List TraceSpan → ℕ
longest duration [] = duration
longest duration (s ∷ spans) =
    longest (max duration (s.start_offset_micros + s.duration_micros)) spans

abbrev pub starts_earlier : SpanNode → SpanNode → Bool
starts_earlier = ascending (λ n. (span_of n).start_offset_micros)

module _ (before_name : Text → Text → Bool) where
  -- `b.count - a.count || a.name.localeCompare(b.name)`
  abbrev busier : ServiceCount → ServiceCount → Bool
  busier a b = ltb b.count a.count || (a.count == b.count && before_name a.name b.name)

  abbrev service : Text × ℕ → ServiceCount
  service (name, count) = record { name = name; count = count }

  unfoldable pub result_of : Dict Text TraceSpan → List SpanNode → TraceModel
  unfolding longest count_services is_orphan sort
  result_of spans roots =
      let nodes = Dict.values spans in
      record {
        roots = sort starts_earlier roots;
        span_count = length nodes;
        duration_micros = longest 0 nodes;
        services = sort busier (map service (count_services [] nodes));
        error_count = length (filter (λ s. s.is_error) nodes);
        orphan_count = length (filter (is_orphan spans) nodes);
      }

  unfoldable pub build_trace_model : List TraceSpan → Option TraceModel
  unfolding forest by_id result_of
  build_trace_model spans =
      Option.map (λ r. result_of (by_id [] spans) r.0) (forest (by_id [] spans))
