-- ===== src/Trace.antt =====
-- Spans and the trace tree: TraceSpan of apps/api/src/schemas/responses/traces.ts and SpanNode of
-- apps/web/src/lib/types.ts. Times are whole microseconds from the start of the trace.
pub mod Order
pub mod SelfTime
pub mod Attributes
pub mod Databases
pub mod Fetch
pub mod Model
pub mod Stats
use rootprint.Common.{ℕ, Text, Bool, Option, List, [], ◌∷◌}
use rootprint.Common.Dict.{Dict}

pub record TraceSpan : Type 0 where
  pub span_id : Text
  pub parent_span_id : Option Text
  pub name : Text
  pub service_name : Text
  pub start_offset_micros : ℕ
  pub duration_micros : ℕ
  pub is_error : Bool
  pub attributes : Dict Text Text
  pub resource_id : Text

mutual
  pub data SpanNode : Type 0 where
    node : (span : TraceSpan) → (depth : ℕ) → SpanNodes → SpanNode

  pub data SpanNodes : Type 0 where
    nil : SpanNodes
    cons : SpanNode → SpanNodes → SpanNodes

abbrev pub to_list : SpanNodes → List SpanNode
to_list nil = []
to_list (cons n ns) = n ∷ to_list ns

abbrev pub span_of : SpanNode → TraceSpan
span_of (node span depth children) = span

abbrev pub children_of : SpanNode → List SpanNode
children_of (node span depth children) = to_list children
