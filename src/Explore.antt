-- ===== src/Explore.antt =====
-- The trace explorer, apps/api/src/services/trace-explore.service.ts: its query, the rows of spans, and what it
-- makes of the aggregations. `digits` writes a number; a percentile is of a type of the client's. A search is
-- `none` where the span store is missing.
pub mod Failures
use rootprint.Common.{
  ℕ, ◌+◌, ◌-◌, ◌/◌, min, Text, codes, text_eq, nat_eq, Eq, ◌==◌, Bool, false, Option, none, some,
  List, [], ◌∷◌, ◌++◌, if◌then◌else◌, is_empty, filter, map, join, ltb,
}
use mathlib.Core.Option
use rootprint.Common.Sort.{sort, ascending, descending}
use rootprint.Query.{escape_filter_value}
use rootprint.Health.{count_of, is_named}
use rootprint.Trace.Fetch.{SpanStatus, is_error_status, as_text}

pub data ExploreStatus : Type 0 where
  any_status only_errors only_ok : ExploreStatus

pub record ExploreFilters : Type 0 where
  pub service : Option Text
  pub operation : Option Text
  pub min_ms : Option ℕ
  pub max_ms : Option ℕ
  pub status : ExploreStatus
  pub root : Bool
  pub q : Option Text

abbrev error_clause : Text
error_clause = codes "span_status.code:error"

abbrev term_clause : Text → Option Text → List Text
unfolding escape_filter_value
term_clause field none = []
term_clause field (some value) = (field ++ b':' ∷ escape_filter_value value) ∷ []

abbrev upper : (ℕ → Text) → Option ℕ → Text
upper digits none = codes "*]"
upper digits (some max_ms) = digits max_ms ++ codes "}"

abbrev lower : (ℕ → Text) → Option ℕ → Text
lower digits none = codes "*"
lower digits (some min_ms) = digits min_ms

abbrev range_clause : (ℕ → Text) → Option ℕ → Option ℕ → List Text
range_clause digits none none = []
range_clause digits min_ms max_ms =
    (codes "span_duration_millis:["
      ++ (lower digits min_ms ++ (codes " TO " ++ upper digits max_ms)))
    ∷ []

abbrev status_clause : ExploreStatus → List Text
status_clause any_status = []
status_clause only_errors = error_clause ∷ []
status_clause only_ok = (codes "NOT " ++ error_clause) ∷ []

abbrev text_clause : Option Text → List Text
text_clause none = []
text_clause (some q) = if is_empty q then [] else (b'(' ∷ (q ++ b')' ∷ [])) ∷ []

pub explore_query : (ℕ → Text) → ExploreFilters → Text
unfolding escape_filter_value join
explore_query digits f =
    let clauses =
      term_clause (codes "service_name") f.service
      ++ (term_clause (codes "span_name") f.operation
          ++ (range_clause digits f.min_ms f.max_ms
              ++ (status_clause f.status
                  ++ ((if f.root then codes "is_root:true" ∷ [] else []) ++ text_clause f.q)))) in
    if is_empty clauses then codes "*" else join (codes " AND ") clauses

-- A text is `none` where the field is no string, a time where it is no number; `http_status` is what `httpStatusOf`
-- reads in the attributes.
pub record ExploreHit : Type 0 where
  pub trace_id : Option Text
  pub span_id : Option Text
  pub service_name : Option Text
  pub span_name : Option Text
  pub start_nanos : Option ℕ
  pub end_nanos : Option ℕ
  pub span_status : Option SpanStatus
  pub http_status : Option ℕ

pub record ExploreSpanRow : Type 0 where
  pub trace_id : Text
  pub span_id : Text
  pub service : Text
  pub operation : Text
  pub start_ms : ℕ
  pub duration_micros : ℕ
  pub is_error : Bool
  pub http_status : Option ℕ

abbrev duration_nanos : ℕ → Option ℕ → ℕ
duration_nanos start none = 0
duration_nanos start (some stop) = if ltb start stop then stop - start else 0

abbrev row_from : ExploreHit → ℕ → ExploreSpanRow
unfolding is_error_status as_text
row_from hit start = record {
  trace_id = as_text hit.trace_id [];
  span_id = as_text hit.span_id [];
  service = as_text hit.service_name (codes "unknown");
  operation = as_text hit.span_name (codes "(unnamed)");
  start_ms = (start + 500000) / 1000000;
  duration_micros = (duration_nanos start hit.end_nanos + 500) / 1000;
  is_error = is_error_status hit.span_status;
  http_status = hit.http_status;
}

pub to_span_row : ExploreHit → Option ExploreSpanRow
unfolding is_error_status as_text
to_span_row hit =
    if is_empty (as_text hit.trace_id [])
    then none
    else if is_empty (as_text hit.span_id [])
    then none
    else Option.map (row_from hit) hit.start_nanos

pub to_span_rows : List ExploreHit → List ExploreSpanRow
unfolding to_span_row
to_span_rows [] = []
to_span_rows (h ∷ hits) = elim (to_span_row h) [
  | none ↦ to_span_rows hits
  | some row ↦ row ∷ to_span_rows hits
]

pub data ExploreSort : Type 0 where
  start_asc start_desc duration_asc duration_desc : ExploreSort

-- The order within a page; pages by start come in order.
pub sort_rows : ExploreSort → List ExploreSpanRow → List ExploreSpanRow
unfolding sort
sort_rows start_asc rows = rows
sort_rows start_desc rows = rows
sort_rows duration_asc rows = sort (ascending (λ r. r.duration_micros)) rows
sort_rows duration_desc rows = sort (descending (λ r. r.duration_micros)) rows

pub record ExploreSpansResponse : Type 0 where
  pub rows : List ExploreSpanRow
  pub total : Option ℕ

-- From the hits and their number.
pub get_explore_spans : ExploreSort → ℕ → Option (List ExploreHit × ℕ) → ExploreSpansResponse
unfolding sort_rows to_span_rows
get_explore_spans order offset none = record { rows = []; total = some 0 }
get_explore_spans order offset (some (hits, num_hits)) = record {
  rows = sort_rows order (to_span_rows hits);
  total = if offset == 0 then some num_hits else none;
}

pub record Percentiles (Metric : Type 0) : Type 0 where
  pub p50 : Option Metric
  pub p95 : Option Metric
  pub p99 : Option Metric

pub record TimeBucket (Metric : Type 0) : Type 0 where
  pub key_ms : ℕ
  pub doc_count : ℕ
  pub pct : Percentiles Metric

-- `services` and `spark` are its sub-aggregations.
pub record OperationBucket (Metric : Type 0) : Type 0 where
  pub key : Text
  pub doc_count : ℕ
  pub pct : Percentiles Metric
  pub services : List Text
  pub spark : List ℕ

pub record Totals (Metric : Type 0) : Type 0 where
  pub time : List (TimeBucket Metric)
  pub ops : List (OperationBucket Metric)
  pub sum_other_doc_count : ℕ
  pub pct : Percentiles Metric
  pub services : List Text

-- The counts of the search for failed spans.
pub record Errors : Type 0 where
  pub time : List (ℕ × ℕ)
  pub ops : List (Text × ℕ)

pub record ExploreBucket (Metric : Type 0) : Type 0 where
  pub key_ms : ℕ
  pub spans : ℕ
  pub errors : ℕ
  pub pct : Percentiles Metric

pub record ExploreOperation (Metric : Type 0) : Type 0 where
  pub operation : Text
  pub services : List Text
  pub spans : ℕ
  pub errors : ℕ
  pub pct : Percentiles Metric
  pub spark : List ℕ

pub record ExploreOverview (Metric : Type 0) : Type 0 where
  pub buckets : List (ExploreBucket Metric)
  pub spans : ℕ
  pub errors : ℕ
  pub pct : Percentiles Metric
  pub operations : List (ExploreOperation Metric)
  pub operations_truncated : Bool
  pub services : List Text

-- That search is made only without a condition on the status.
pub errors_searched : ExploreStatus → Errors → Errors
errors_searched any_status errors = errors
errors_searched only_errors errors = record { time = []; ops = [] }
errors_searched only_ok errors = record { time = []; ops = [] }

pub error_count : {K : Type 0} ⦃eq : Eq K⦄ → ExploreStatus → List (K × ℕ) → K → ℕ → ℕ
unfolding count_of
error_count only_errors counts key total = total
error_count any_status counts key total = min total (count_of counts key)
error_count only_ok counts key total = min total (count_of counts key)

module _ {Metric : Type 0} where
  pub bucket_of : ExploreStatus → Errors → TimeBucket Metric → ExploreBucket Metric
  unfolding error_count
  bucket_of status errors b = record {
    key_ms = b.key_ms;
    spans = b.doc_count;
    errors = error_count status errors.time b.key_ms b.doc_count;
    pct = b.pct;
  }

  -- `ratePerSec` is a quotient of floating point and left out.
  pub operation_of : ExploreStatus → Errors → OperationBucket Metric → ExploreOperation Metric
  unfolding error_count
  operation_of status errors b = record {
    operation = b.key;
    services = filter is_named b.services;
    spans = b.doc_count;
    errors = error_count status errors.ops b.key b.doc_count;
    pct = b.pct;
    spark = b.spark;
  }

  unfoldable pub sum_of : (ExploreBucket Metric → ℕ) → ℕ → List (ExploreBucket Metric) → ℕ
  sum_of of acc [] = acc
  sum_of of acc (b ∷ bs) = sum_of of (acc + of b) bs

  -- `errors` and `facets` are what the searches for them would answer; the percentiles are those that `percentile`
  -- reads. `none` is a missing span store.
  unfoldable pub get_explore_overview :
      ExploreStatus
      → Bool
      → Option (Totals Metric)
      → Errors
      → List Text
      → Percentiles Metric
      → ExploreOverview Metric
  unfolding bucket_of operation_of errors_searched
  get_explore_overview status unfiltered none errors facets no_percentiles = record {
    buckets = [];
    spans = 0;
    errors = 0;
    pct = no_percentiles;
    operations = [];
    operations_truncated = false;
    services = [];
  }
  get_explore_overview status unfiltered (some totals) errors facets no_percentiles =
      let failed = errors_searched status errors in
      let buckets = map (bucket_of status failed) totals.time in
      record {
        buckets = buckets;
        spans = sum_of (λ b. b.spans) 0 buckets;
        errors = sum_of (λ b. b.errors) 0 buckets;
        pct = totals.pct;
        operations =
            filter (λ o. is_named o.operation) (map (operation_of status failed) totals.ops);
        operations_truncated = ltb 0 totals.sum_other_doc_count;
        services = filter is_named (if unfiltered then totals.services else facets);
      }
