-- ===== src/Trace/Fetch.antt =====
-- The trace that the server answers with, `getTrace` of apps/api/src/services/trace.service.ts. The
-- events of a span are left out.
pub mod Spans
pub mod Shown
use rootprint.Common.{
  text_before, ℕ, ◌+◌, ◌-◌, ◌/◌, Text, codes, text_eq, nat_eq, ◌==◌, Bool, true, false, ltb, Option,
  none, some, List, [], ◌∷◌, ◌++◌, if◌then◌else◌, is_empty, or_else, to_lower_ascii, includes, map,
  length,
}
use mathlib.Core.Option
use rootprint.Common.Dict
use rootprint.Common.Dict.{Dict}
use rootprint.Common.Sort.{sort}
use rootprint.Trace.{TraceSpan}
use rootprint.Trace.Attributes.{Value, flatten_attributes, flatten_value, as_record}

pub record SpanStatus : Type 0 where
  pub code : Text
  pub message : Option Text

-- A hit of the span store; a text is `none` where the field is no string, a number where it is none.
pub record RawSpanHit : Type 0 where
  pub span_id : Option Text
  pub parent_span_id : Option Text
  pub span_name : Option Text
  pub span_kind : Option ℕ
  pub service_name : Option Text
  pub scope_name : Option Text
  pub scope_version : Option Text
  pub span_start_timestamp_nanos : Option ℕ
  pub span_end_timestamp_nanos : Option ℕ
  pub span_status : Option SpanStatus
  pub span_attributes : Value
  pub resource_attributes : Value

pub record SearchResponse : Type 0 where
  pub hits : List RawSpanHit
  pub num_hits : ℕ

pub record TraceResponse : Type 0 where
  pub spans : List TraceSpan
  pub trace_start_micros : ℕ
  pub resources : Dict Text (Dict Text Text)
  pub truncated : Bool

abbrev empty_trace : Bool → TraceResponse
empty_trace truncated = record {
  spans = [];
  trace_start_micros = 0;
  resources = [];
  truncated = truncated;
}

unfoldable pub as_text : Option Text → Text → Text
as_text none fallback = fallback
as_text (some t) fallback = or_else t fallback

-- `Math.round(v / NANOS_PER_MICRO)`
unfoldable pub to_micros : Option ℕ → Option ℕ
to_micros v = Option.map (λ n. (n + 500) / 1000) v

unfoldable pub is_error_status : Option SpanStatus → Bool
is_error_status status = elim status [
  | none ↦ false
  | some s ↦ to_lower_ascii s.code == codes "error"
]

status_message_of : Option SpanStatus → Option Text
unfolding is_error_status as_text
status_message_of status =
    if is_error_status status
    then (elim status [
      | none ↦ none
      | some s ↦ if is_empty (as_text s.message []) then none else s.message
    ])
    else none

unfoldable pub span_kind_tag : Option ℕ → Option Text
span_kind_tag none = none
span_kind_tag (some n) =
    if n == 2
    then some (codes "server")
    else if n == 3
    then some (codes "client")
    else if n == 4
    then some (codes "producer")
    else if n == 5
    then some (codes "consumer")
    else none

abbrev put_some : Option Text → Text → Dict Text Text → Dict Text Text
put_some none key attributes = attributes
put_some (some v) key attributes = Dict.set attributes key v

abbrev put_named : Text → Text → Dict Text Text → Dict Text Text
put_named v key attributes = if is_empty v then attributes else Dict.set attributes key v

attributes_of : RawSpanHit → Dict Text Text
unfolding flatten_attributes flatten_value span_kind_tag status_message_of as_text Dict.set
    Dict.delete
attributes_of hit =
    let flat = flatten_attributes (as_record hit.span_attributes) [] [] in
    let kept = Dict.delete (Dict.delete flat (codes "otel.status_code")) (codes "error") in
    let tagged = put_some (span_kind_tag hit.span_kind) (codes "span.kind") kept in
    let described =
      put_some (status_message_of hit.span_status) (codes "otel.status_description") tagged in
    put_named (as_text hit.scope_version []) (codes "otel.scope.version")
      (put_named (as_text hit.scope_name []) (codes "otel.scope.name") described)

duration_from : ℕ → Option ℕ → ℕ
duration_from start none = 0
duration_from start (some finish) = if ltb start finish then finish - start else 0

parent_of : RawSpanHit → Option Text
unfolding as_text
parent_of hit = let id = as_text hit.parent_span_id [] in if is_empty id then none else some id

-- The variables of the loop over the hits.
pub record Reader : Type 0 where
  pub truncated : Bool
  pub seen : List Text
  pub resource_ids : Dict Text Text
  pub resources : Dict Text (Dict Text Text)
  pub spans : List TraceSpan

-- `stringify` is `JSON.stringify` of a service and the sorted attributes, `show` is `String(n)`.
module _ (stringify : Text → Dict Text Text → Text) (show : ℕ → Text) where
  abbrev sorted_by_key : Dict Text Text → Dict Text Text
  sorted_by_key attributes = sort (λ y x. text_before y.0 x.0) attributes

  pub resource_key_of : Text → Dict Text Text → Text
  unfolding text_before sort
  resource_key_of service_name attributes = stringify service_name (sorted_by_key attributes)

  abbrev pub resource_for : Option Text → Reader → Text → Dict Text Text → Text × Reader
  resource_for (some id) r key attributes = (id, r)
  resource_for none r key attributes =
      let id = codes "r" ++ show (length r.resource_ids) in
      (
        id,
        record r {
          resource_ids = Dict.set r.resource_ids key id;
          resources = Dict.set r.resources id attributes;
        },
      )

  -- The id of the resource, and the state that knows it.
  unfoldable pub resource_id_of : Reader → Text → Dict Text Text → Text × Reader
  unfolding Dict.get Dict.set
  resource_id_of r key attributes = resource_for (Dict.get r.resource_ids key) r key attributes

  unfoldable pub span_from : RawSpanHit → Text → ℕ → Text → Text → TraceSpan
  unfolding attributes_of duration_from is_error_status parent_of as_text to_micros
  span_from hit span_id start service_name resource_id = record {
    span_id = span_id;
    parent_span_id = parent_of hit;
    name = as_text hit.span_name (codes "(unnamed)");
    service_name = service_name;
    start_offset_micros = start;
    duration_micros = duration_from start (to_micros hit.span_end_timestamp_nanos);
    is_error = is_error_status hit.span_status;
    attributes = attributes_of hit;
    resource_id = resource_id;
  }

  -- A hit with an id that was not seen before and a start; times are absolute here.
  unfoldable pub read_span : RawSpanHit → Text → ℕ → Reader → Reader
  unfolding resource_id_of resource_key_of span_from as_text flatten_attributes flatten_value
  read_span hit span_id start r =
      let service_name = as_text hit.service_name (codes "unknown") in
      let resource = flatten_attributes (as_record hit.resource_attributes) [] [] in
      let (resource_id, r') =
        resource_id_of (record r { seen = span_id ∷ r.seen })
          (resource_key_of service_name resource) resource in
      record r' { spans = r'.spans ++ span_from hit span_id start service_name resource_id ∷ [] }

  abbrev pub read_at : RawSpanHit → Text → Option ℕ → Reader → Reader
  read_at hit span_id none r = record r { truncated = true }
  read_at hit span_id (some start) r =
      if is_empty span_id
      then record r { truncated = true }
      else if includes r.seen span_id
      then r
      else read_span hit span_id start r

  unfoldable pub read_hits : List RawSpanHit → Reader → Reader
  unfolding read_span as_text to_micros
  read_hits [] r = r
  read_hits (hit ∷ hits) r =
      read_hits hits
        (read_at hit (as_text hit.span_id []) (to_micros hit.span_start_timestamp_nanos) r)

  abbrev pub rebase : ℕ → TraceSpan → TraceSpan
  rebase start s = record s { start_offset_micros = s.start_offset_micros - start }

  -- The hits are sorted by their start, so the first span has the first start.
  abbrev pub response_of : Reader → List TraceSpan → TraceResponse
  response_of r [] = empty_trace true
  response_of r (first ∷ rest) = record {
    spans = map (rebase first.start_offset_micros) (first ∷ rest);
    trace_start_micros = first.start_offset_micros;
    resources = r.resources;
    truncated = r.truncated;
  }

  abbrev pub first_reader : SearchResponse → Reader
  first_reader response = record {
    truncated = ltb (length response.hits) response.num_hits;
    seen = [];
    resource_ids = [];
    resources = [];
    spans = [];
  }

  -- `none` for a span store that is missing.
  unfoldable pub get_trace : Option SearchResponse → TraceResponse
  unfolding read_hits
  get_trace none = empty_trace false
  get_trace (some response) =
      if is_empty response.hits
      then empty_trace false
      else (let r = read_hits response.hits (first_reader response) in response_of r r.spans)
