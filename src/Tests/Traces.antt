-- ===== src/Tests/Traces.antt =====
-- A trace of a request with a slow query and a failed one.
use rootprint.Common.{
  arith, ℕ, ◌≡◌, refl, ◌≤◌, Text, codes, text_eq, Bool, true, false, Option, none, some, List, [],
  ◌∷◌, ◌++◌, length, All, text_beq, zero, suc, ◌+◌, map, count, includes, if◌then◌else◌,
}
use mathlib.Core.Option
use rootprint.Common.Dict.{Dict}
use rootprint.Common.Sort.{Descending}
use rootprint.Trace.{TraceSpan, SpanNode, node, nil, cons}
use rootprint.Trace.Order.{spans_in_tree_order, preorder_all, spans_in_tree_order-eq-preorder}
use rootprint.Trace.SelfTime.{self_micros, idle_micros, self_micros-eq-idle_micros}
use rootprint.Trace.Databases.{describe_span}
use rootprint.Trace.Attributes.{scalar, no_fields, field, object, null}
use rootprint.Trace.Fetch.{RawSpanHit, SearchResponse, get_trace}
use rootprint.Trace.Fetch.Spans.{IsTrace, get_trace-IsTrace}
use rootprint.Trace.Fetch.Shown.{build_trace_model-get_trace}
use rootprint.Trace.Model.{TraceModel, by_id, build_trace_model, result_of}
use rootprint.Trace.Model.Visited.{ids, node_id}
use rootprint.Trace.Model.Linked.{IsLinked}
use rootprint.Trace.Model.Once.{ids_of, build_trace_model-Once}
use rootprint.Trace.Stats.{top_operations}
use rootprint.Trace.Stats.Top.{SumsUp, Placed, top_operations-SumsUp}

abbrev span : Text → Option Text → Text → ℕ → ℕ → Bool → TraceSpan
span id parent name start duration is_error = record {
  span_id = id;
  parent_span_id = parent;
  name = name;
  service_name = codes "api";
  start_offset_micros = start;
  duration_micros = duration;
  is_error = is_error;
  attributes = [];
  resource_id = codes "r0";
}

abbrev root_span : TraceSpan
root_span = span (codes "a") none (codes "GET /") 0 10 false

abbrev query_span : TraceSpan
query_span = span (codes "b") (some (codes "a")) (codes "query") 2 4 true

abbrev late_span : TraceSpan
late_span = span (codes "c") (some (codes "a")) (codes "query") 5 9 true

abbrev request : SpanNode
request = node root_span 0 (cons (node late_span 1 nil) (cons (node query_span 1 nil) nil))

abbrev spans : List TraceSpan
spans = root_span ∷ query_span ∷ late_span ∷ []

-- The children cover the instants 2 to 9, the second one past the end of its parent.
self_micros_test : self_micros request ≡ 2
unfolding self_micros
self_micros_test = refl

self_micros-eq-idle_micros_example : self_micros request ≡ idle_micros request
self_micros-eq-idle_micros_example = self_micros-eq-idle_micros request

spans_in_tree_order-eq-preorder_example :
    spans_in_tree_order (cons request nil) ≡ some (preorder_all (cons request nil))
spans_in_tree_order-eq-preorder_example = spans_in_tree_order-eq-preorder (cons request nil)

-- A text with its end marked, followed by another.
mark : Text → Text → Text
mark [] rest = 0 ∷ rest
mark (c ∷ cs) rest = (c + 1) ∷ mark cs rest

-- Stands for `JSON.stringify`.
mark_all : List Text → Text
unfolding mark
mark_all [] = []
mark_all (t ∷ ts) = mark t (mark_all ts)

mark_apart : (a c r q : Text) → mark a r ≡ mark c q → (a ≡ c) × (r ≡ q)
unfolding mark
mark_apart [] [] r q e = (refl, cc e)
mark_apart [] (y ∷ c) r q e = let z : 0 ≡ y + 1 = cc e in absurd (omega (arith, z))
mark_apart (x ∷ a) [] r q e = let z : x + 1 ≡ 0 = cc e in absurd (omega (arith, z))
mark_apart (x ∷ a) (y ∷ c) r q e =
    let z : x + 1 ≡ y + 1 = cc e in
    let later : mark a r ≡ mark c q = cc e in
    let (same, rest) = mark_apart a c r q later in
    let w : x ≡ y = omega (arith, z) in (cc (w, same), rest)

mark_all_apart :
    (a b c d : Text) → mark_all (a ∷ b ∷ []) ≡ mark_all (c ∷ d ∷ []) → (a ≡ c) × (b ≡ d)
unfolding mark_all
mark_all_apart a b c d e =
    let (first, rest) = mark_apart a c (mark b []) (mark d []) e in
    (first, (mark_apart b d [] [] rest).0)

top_operations-SumsUp_example :
    (length (top_operations mark_all spans) ≤ 5)
    × ((k : Text) → count k (map (λ g. g.key) (top_operations mark_all spans)) ≤ 1)
    × Descending (λ g. g.total_micros) (top_operations mark_all spans)
    × All (SumsUp mark_all spans) (top_operations mark_all spans)
    × ((service name : Text) → Placed spans (top_operations mark_all spans) service name)
top_operations-SumsUp_example = top_operations-SumsUp mark_all mark_all_apart spans

abbrev call_span : TraceSpan
call_span = record query_span {
  attributes =
      (codes "db.system", codes "postgresql") ∷ (codes "db.query.text", codes " SELECT 1 ") ∷ [];
}

describe_span_test :
    describe_span call_span ≡ some (record { kind = codes "postgresql"; detail = codes "SELECT 1" })
unfolding describe_span text_beq
describe_span_test = refl

abbrev flat : List Text → Text
flat [] = []
flat (t ∷ ts) = t ++ b'|' ∷ flat ts

-- Two spans that are each other's parents, and one whose parent is not in the trace.
abbrev tangled : List TraceSpan
tangled =
    span (codes "x") (some (codes "y")) (codes "one") 4 1 false
    ∷ span (codes "y") (some (codes "x")) (codes "two") 3 1 false
    ∷ span (codes "z") (some (codes "gone")) (codes "three") 1 2 true
    ∷ []

-- Stands for the order of `localeCompare`.
abbrev never_before : Text → Text → Bool
never_before a b = false

tangled_test :
    Option.map {B = List Text × ℕ}
      (λ m. (map node_id m.roots, m.orphan_count))
      (build_trace_model never_before tangled)
    ≡ some (codes "z" ∷ codes "x" ∷ [], 1)
unfolding build_trace_model text_beq result_of
tangled_test = refl

build_trace_model-Once_example :
    (m : TraceModel) × (build_trace_model never_before tangled ≡ some m)
    × ((x : Text) → count x (ids_of m) ≡ (if includes (ids tangled) x then 1 else 0))
    × All (IsLinked (by_id [] tangled)) m.roots
build_trace_model-Once_example = build_trace_model-Once never_before tangled

abbrev raw_hit : Text → ℕ → RawSpanHit
raw_hit id start = record {
  span_id = some id;
  parent_span_id = none;
  span_name = none;
  span_kind = some 2;
  service_name = some (codes "api");
  scope_name = none;
  scope_version = none;
  span_start_timestamp_nanos = some start;
  span_end_timestamp_nanos = some (start + 2000);
  span_status = none;
  span_attributes = object (
      field (codes "http") (object (field (codes "route") (scalar (codes "/a")) no_fields))
        no_fields);
  resource_attributes = null;
}

abbrev found : SearchResponse
found = record {
  hits = raw_hit (codes "a") 5000 ∷ raw_hit (codes "b") 8000 ∷ raw_hit (codes "a") 9000 ∷ [];
  num_hits = 3;
}

-- Stand for `JSON.stringify` of a resource and for `String(n)`.
abbrev shown_resource : Text → Dict Text Text → Text
shown_resource service attributes = service

abbrev in_unary : ℕ → Text
in_unary zero = []
in_unary (suc n) = b'1' ∷ in_unary n

found_test :
    map {B = Text × ℕ × ℕ}
      (λ s. (s.span_id, s.start_offset_micros, s.duration_micros))
      (get_trace shown_resource in_unary (some found)).spans
    ≡ (codes "a", 0, 2) ∷ (codes "b", 3, 2) ∷ []
unfolding get_trace text_beq
found_test = refl

get_trace-IsTrace_example : IsTrace found (get_trace shown_resource in_unary (some found))
get_trace-IsTrace_example = get_trace-IsTrace shown_resource in_unary found refl

build_trace_model-get_trace_example :
    (m : TraceModel) × (build_trace_model never_before
        (get_trace shown_resource in_unary (some found)).spans
      ≡ some m)
    × ((x : Text)
        → count x (ids_of m) ≡ count x (ids (get_trace shown_resource in_unary (some found)).spans))
build_trace_model-get_trace_example =
    build_trace_model-get_trace shown_resource in_unary never_before (some found)
