-- ===== src/Trace/Stats.antt =====
-- The summary figures of a trace, apps/web/src/lib/components/traces/span-stats.ts. `stringify` is
-- `JSON.stringify` on a list of strings, which the program uses as a key of its maps.
pub mod Operations
pub mod Top
pub mod FirstError
use rootprint.Common.{
  text_eq, ℕ, ◌+◌, Text, Option, none, some, List, [], ◌∷◌, ltb, if◌then◌else◌, ◌&&◌, take,
}
use rootprint.Common.Dict
use rootprint.Common.Dict.{Dict}
use rootprint.Common.Sort.{sort, descending}
use rootprint.Trace.{TraceSpan}

pub record OperationRollup : Type 0 where
  pub key : Text
  pub name : Text
  pub service_name : Text
  pub count : ℕ
  pub total_micros : ℕ
  pub slowest_span_id : Text
  pub slowest_micros : ℕ

-- One round of the loop over the spans.
pub first_error_step : Option TraceSpan → TraceSpan → Option TraceSpan
first_error_step none s = if s.is_error then some s else none
first_error_step (some f) s =
    if s.is_error && ltb s.start_offset_micros f.start_offset_micros then some s else some f

pub first_error_from : Option TraceSpan → List TraceSpan → Option TraceSpan
unfolding first_error_step
first_error_from first [] = first
first_error_from first (s ∷ spans) = first_error_from (first_error_step first s) spans

pub first_error_span : List TraceSpan → Option TraceSpan
unfolding first_error_from
first_error_span spans = first_error_from none spans

module _ (stringify : List Text → Text) where
  abbrev pub operation_key : TraceSpan → Text
  operation_key s = stringify (s.service_name ∷ s.name ∷ [])

  open_operation : TraceSpan → OperationRollup
  open_operation s = record {
    key = operation_key s;
    name = s.name;
    service_name = s.service_name;
    count = 1;
    total_micros = s.duration_micros;
    slowest_span_id = s.span_id;
    slowest_micros = s.duration_micros;
  }

  extend_operation : OperationRollup → TraceSpan → OperationRollup
  extend_operation g s =
      let grown = record g {
        count = g.count + 1;
        total_micros = g.total_micros + s.duration_micros;
      } in
      if ltb g.slowest_micros s.duration_micros
      then record grown { slowest_micros = s.duration_micros; slowest_span_id = s.span_id }
      else grown

  grow_operation : Option OperationRollup → TraceSpan → OperationRollup
  unfolding open_operation extend_operation
  grow_operation none s = open_operation s
  grow_operation (some g) s = extend_operation g s

  -- One round of the loop over the spans; changing the group that the map holds is a write at its key.
  pub add_operation : Dict Text OperationRollup → TraceSpan → Dict Text OperationRollup
  unfolding grow_operation
  add_operation groups s =
      Dict.set groups (operation_key s) (grow_operation (Dict.get groups (operation_key s)) s)

  pub operation_groups : Dict Text OperationRollup → List TraceSpan → Dict Text OperationRollup
  operation_groups groups [] = groups
  operation_groups groups (s ∷ spans) = operation_groups (add_operation groups s) spans

  pub top_operations : List TraceSpan → List OperationRollup
  unfolding operation_groups add_operation Dict.get Dict.set sort
  top_operations spans =
      take 5 (sort (descending (λ g. g.total_micros)) (Dict.values (operation_groups [] spans)))
