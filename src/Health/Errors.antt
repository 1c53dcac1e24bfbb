-- ===== src/Health/Errors.antt =====
-- The failed spans of a service, `getServiceErrors` of apps/api/src/services/service-health.service.ts.
use rootprint.Common.{
  ℕ, ◌+◌, ◌-◌, ◌/◌, Text, codes, text_eq, nat_eq, ◌==◌, Bool, false, ◌||◌, ltb, Option, none, some,
  List, [], ◌∷◌, ◌++◌, if◌then◌else◌, is_empty, take, join, length,
}
use mathlib.Core.Option
use rootprint.Query.{escape_filter_value}
use rootprint.Common.Dict.{is_some}
use rootprint.Health.{error_spans, service_field, and}
use rootprint.Trace.Fetch.{as_text, span_kind_tag}

-- The attributes of an event that are read: `none` where there is no such key, `some none` where its value
-- is no string.
pub record ExceptionAttributes : Type 0 where
  pub message : Option (Option Text)
  pub kind : Option (Option Text)

-- A status code as an attribute: a whole number, a string, or anything else.
pub data RawStatus : Type 0 where
  number : ℕ → RawStatus
  string : Text → RawStatus
  missing : RawStatus

pub record ErrorHit : Type 0 where
  pub trace_id : Option Text
  pub span_id : Option Text
  pub status_message : Option Text
  pub events : List ExceptionAttributes
  pub start_nanos : Option ℕ
  pub end_nanos : Option ℕ
  pub service_name : Option Text
  pub span_name : Option Text
  pub span_kind : Option ℕ
  pub response_status_code : RawStatus
  pub status_code : RawStatus

-- The duration is in nanoseconds here, where the code divides by a million.
pub record ServiceErrorRow : Type 0 where
  pub trace_id : Text
  pub span_id : Text
  pub timestamp_ms : ℕ
  pub service : Text
  pub operation : Text
  pub kind : Text
  pub message : Text
  pub http_status : Option ℕ
  pub duration_nanos : ℕ

pub record ServiceErrorsResponse : Type 0 where
  pub rows : List ServiceErrorRow
  pub has_more : Bool

abbrev message_max_chars : ℕ
message_max_chars = 300

abbrev is_exception : ExceptionAttributes → Bool
is_exception e = is_some e.message || is_some e.kind

-- The first event that tells of an exception, so that the message never mixes two events.
exception_attributes : List ExceptionAttributes → ExceptionAttributes
exception_attributes [] = record { message = none; kind = none }
exception_attributes (e ∷ events) =
    let rest = exception_attributes events in if is_exception e then e else rest

abbrev text_under : Option (Option Text) → Option Text
text_under none = none
text_under (some v) = v

-- The status of the span, or else of its exception.
message_of : ErrorHit → Text
unfolding exception_attributes as_text
message_of hit =
    let e = exception_attributes hit.events in
    as_text hit.status_message (as_text (text_under e.message) (as_text (text_under e.kind) []))

duration_of : Option ℕ → Option ℕ → ℕ
duration_of (some start) (some finish) = if ltb start finish then finish - start else 0
duration_of _ _ = 0

-- `number_of` is `Number(s)` where that is finite.
module _ (number_of : Text → Option ℕ) where
  coerce_status : RawStatus → Option ℕ
  coerce_status (number n) = some n
  coerce_status (string t) = if is_empty t then none else number_of t
  coerce_status missing = none

  abbrev or_status : Option ℕ → Option ℕ → Option ℕ
  or_status none other = other
  or_status (some n) other = some n

  http_status_of : ErrorHit → Option ℕ
  unfolding coerce_status
  http_status_of hit =
      or_status (coerce_status hit.response_status_code) (coerce_status hit.status_code)

  -- `none` for a hit without ids. The start in milliseconds is rounded.
  unfoldable pub to_error_row : ErrorHit → Option ServiceErrorRow
  unfolding http_status_of message_of duration_of as_text span_kind_tag
  to_error_row hit =
      let trace_id = as_text hit.trace_id [] in
      let span_id = as_text hit.span_id [] in
      if is_empty trace_id || is_empty span_id
      then none
      else some (record {
        trace_id = trace_id;
        span_id = span_id;
        timestamp_ms = Option.get_or (Option.map (λ n. (n + 500000) / 1000000) hit.start_nanos) 0;
        service = as_text hit.service_name [];
        operation = as_text hit.span_name [];
        kind = Option.get_or (span_kind_tag hit.span_kind) (codes "internal");
        message = take message_max_chars (message_of hit);
        http_status = http_status_of hit;
        duration_nanos = duration_of hit.start_nanos hit.end_nanos;
      })

  abbrev add_row : Option ServiceErrorRow → List ServiceErrorRow → List ServiceErrorRow
  add_row none rows = rows
  add_row (some row) rows = row ∷ rows

  unfoldable pub error_rows : List ErrorHit → List ServiceErrorRow
  unfolding to_error_row
  error_rows [] = []
  error_rows (hit ∷ hits) = add_row (to_error_row hit) (error_rows hits)

  -- `none` for a span store that is missing.
  unfoldable pub service_errors : ℕ → Option (List ErrorHit) → ServiceErrorsResponse
  unfolding error_rows
  service_errors limit none = record { rows = []; has_more = false }
  service_errors limit (some hits) = record {
    rows = error_rows hits;
    has_more = length hits == limit;
  }

pub data SpanKind : Type 0 where
  server client producer consumer internal : SpanKind

pub data ErrorHttpStatus : Type 0 where
  status_4xx status_5xx status_none : ErrorHttpStatus

pub record ServiceErrorsFilters : Type 0 where
  pub service : Option Text
  pub operation : Option Text
  pub kind : Option SpanKind
  pub http_status : Option ErrorHttpStatus

error_kind_clause : SpanKind → Text
error_kind_clause server = codes "span_kind:2"
error_kind_clause client = codes "span_kind:3"
error_kind_clause producer = codes "span_kind:4"
error_kind_clause consumer = codes "span_kind:5"
error_kind_clause internal = codes "span_kind:IN [0 1]"

abbrev http_response_status_field : Text
http_response_status_field = codes "span_attributes.http.response.status_code"

abbrev http_status_field : Text
http_status_field = codes "span_attributes.http.status_code"

abbrev status_range : Text → Text
status_range range =
    codes "("
    ++ http_response_status_field
    ++ range
    ++ codes " OR "
    ++ http_status_field
    ++ range
    ++ codes ")"

error_http_status_clause : ErrorHttpStatus → Text
error_http_status_clause status_4xx = status_range (codes ":[400 TO 499]")
error_http_status_clause status_5xx = status_range (codes ":[500 TO 599]")
error_http_status_clause status_none = codes "NOT " ++ status_range (codes ":*")

abbrev clause {ℓ} : {A : Type ℓ} → (A → Text) → Option A → List Text
clause show none = []
clause show (some a) = show a ∷ []

unfoldable pub service_errors_query : ServiceErrorsFilters → Text
unfolding error_kind_clause error_http_status_clause
service_errors_query f = join and (
    error_spans
    ∷ (clause (λ s. service_field ++ codes ":" ++ escape_filter_value s) f.service
        ++ clause (λ o. codes "span_name:" ++ escape_filter_value o) f.operation
        ++ clause error_kind_clause f.kind
        ++ clause error_http_status_clause f.http_status))
