-- ===== src/Health.antt =====
-- Service health, apps/api/src/services/service-health.service.ts: what it makes of the aggregations
-- that Quickwit answers with. A percentile or an average is of a type `Metric` of the client's;
-- durations are summed from `span_duration_millis`, which is a whole number.
pub mod Endpoints
pub mod Response
pub mod Bounds
pub mod Failures
pub mod Errors
use rootprint.Common.{
  ℕ, ◌+◌, min, Text, codes, text_eq, nat_eq, Eq, Bool, not, Option, none, some, List, [], ◌∷◌, ◌++◌,
  is_empty, filter, map,
}
use mathlib.Core.Option
use rootprint.Common.Dict
use rootprint.Common.Dict.{Dict}
use rootprint.Query.{escape_filter_value}

-- `new Map(entries)`
unfoldable pub dict_of {ℓ κ} :
    {K : Type ℓ} {V : Type κ} ⦃eq : Eq K⦄ → Dict K V → List (K × V) → Dict K V
unfolding Dict.set
dict_of m [] = m
dict_of m ((k, v) ∷ es) = dict_of (Dict.set m k v) es

-- The counts of failures: 0 where there is no bucket.
unfoldable pub count_of {ℓ} : {K : Type ℓ} ⦃eq : Eq K⦄ → List (K × ℕ) → K → ℕ
unfolding dict_of Dict.get
count_of counts k = Option.get_or (Dict.get (dict_of [] counts) k) 0

abbrev pub is_named : Text → Bool
is_named name = not (is_empty name)

-- A bucket of a date histogram.
pub record TimeBucket (Metric : Type 0) : Type 0 where
  pub key_ms : ℕ
  pub doc_count : ℕ
  pub p50 : Option Metric
  pub p95 : Option Metric
  pub avg : Option Metric

-- A bucket of a terms aggregation; `total`, `peers` and `time` are its sub-aggregations.
pub record TermBucket (Metric : Type 0) : Type 0 where
  pub key : Text
  pub doc_count : ℕ
  pub p50 : Option Metric
  pub p95 : Option Metric
  pub total : Option ℕ
  pub peers : List Text
  pub time : List (TimeBucket Metric)

-- A bucket of an endpoint search, with its buckets by span name.
pub record EndpointBucket (Metric : Type 0) : Type 0 where
  pub bucket : TermBucket Metric
  pub names : List (TermBucket Metric)

pub record ServiceHealthBucket (Metric : Type 0) : Type 0 where
  pub key_ms : ℕ
  pub requests : ℕ
  pub errors : ℕ
  pub p50 : Option Metric
  pub p95 : Option Metric
  pub avg : Option Metric

pub record ServiceHealthServiceRow (Metric : Type 0) : Type 0 where
  pub name : Text
  pub requests : ℕ
  pub errors : ℕ
  pub p50 : Option Metric
  pub p95 : Option Metric

pub record ServiceHealthFailingOperation : Type 0 where
  pub name : Text
  pub errors : ℕ

pub record ServiceHealthDependency (Metric : Type 0) : Type 0 where
  pub name : Text
  pub peers : List Text
  pub calls : ℕ
  pub total_millis : ℕ
  pub p50 : Option Metric
  pub p95 : Option Metric

pub record ServiceLatency (Metric : Type 0) : Type 0 where
  pub name : Text
  pub p95 : List (Option Metric)

pub record Summary (Metric : Type 0) : Type 0 where
  pub requests : ℕ
  pub errors : ℕ
  pub error_spans : ℕ
  pub p50 : Option Metric
  pub p95 : Option Metric

-- `unfloor` adds half a millisecond.
module _ {Metric : Type 0} (unfloor : Metric → Metric) where
  abbrev pub percentile : Option Metric → Option Metric
  percentile p = Option.map unfloor p

  merge_time_bucket : List (ℕ × ℕ) → TimeBucket Metric → ServiceHealthBucket Metric
  unfolding count_of
  merge_time_bucket error_counts b = record {
    key_ms = b.key_ms;
    requests = b.doc_count;
    errors = min b.doc_count (count_of error_counts b.key_ms);
    p50 = percentile b.p50;
    p95 = percentile b.p95;
    avg = percentile b.avg;
  }

  unfoldable pub merge_time_buckets :
      List (TimeBucket Metric) → List (TimeBucket Metric) → List (ServiceHealthBucket Metric)
  unfolding merge_time_bucket
  merge_time_buckets totals errors =
      map (merge_time_bucket (map (λ b. (b.key_ms, b.doc_count)) errors)) totals

  service_row : List (Text × ℕ) → TermBucket Metric → ServiceHealthServiceRow Metric
  unfolding count_of
  service_row error_counts b = record {
    name = b.key;
    requests = b.doc_count;
    errors = min b.doc_count (count_of error_counts b.key);
    p50 = percentile b.p50;
    p95 = percentile b.p95;
  }

  unfoldable pub service_rows_of :
      List (TermBucket Metric) → List (TermBucket Metric) → List (ServiceHealthServiceRow Metric)
  unfolding service_row
  service_rows_of services errors =
      filter (λ row. is_named row.name)
        (map (service_row (map (λ b. (b.key, b.doc_count)) errors)) services)

  failing_operation : TermBucket Metric → ServiceHealthFailingOperation
  failing_operation b = record { name = b.key; errors = b.doc_count }

  unfoldable pub failing_operations_of :
      List (TermBucket Metric) → List ServiceHealthFailingOperation
  unfolding failing_operation
  failing_operations_of operations =
      filter (λ o. is_named o.name) (map failing_operation operations)

  dependency : TermBucket Metric → ServiceHealthDependency Metric
  dependency b = record {
    name = b.key;
    peers = filter is_named b.peers;
    calls = b.doc_count;
    total_millis = Option.get_or b.total 0;
    p50 = percentile b.p50;
    p95 = percentile b.p95;
  }

  unfoldable pub dependencies_of : List (TermBucket Metric) → List (ServiceHealthDependency Metric)
  unfolding dependency
  dependencies_of calls = filter (λ d. is_named d.name) (map dependency calls)

  service_latency : TermBucket Metric → ServiceLatency Metric
  service_latency b = record { name = b.key; p95 = map (λ t. percentile t.p95) b.time }

  unfoldable pub service_latencies_of : List (TermBucket Metric) → List (ServiceLatency Metric)
  unfolding service_latency
  service_latencies_of services = filter (λ s. is_named s.name) (map service_latency services)

  -- `buckets.reduce((sum, bucket) => sum + of(bucket), 0)`
  abbrev pub sum_of : (ServiceHealthBucket Metric → ℕ) → ℕ → List (ServiceHealthBucket Metric) → ℕ
  sum_of of acc [] = acc
  sum_of of acc (b ∷ bs) = sum_of of (acc + of b) bs

  unfoldable pub summary_of :
      List (ServiceHealthBucket Metric) → ℕ → Option Metric → Option Metric → Summary Metric
  summary_of buckets error_spans p50 p95 = record {
    requests = sum_of (λ b. b.requests) 0 buckets;
    errors = sum_of (λ b. b.errors) 0 buckets;
    error_spans = error_spans;
    p50 = percentile p50;
    p95 = percentile p95;
  }

abbrev pub root_spans : Text
root_spans = codes "is_root:true"

abbrev pub error_spans : Text
error_spans = codes "span_status.code:error"

abbrev pub entry_spans : Text
entry_spans = codes "(span_kind:IN [2 5] OR " ++ root_spans ++ codes ")"

abbrev pub service_field : Text
service_field = codes "service_name"

abbrev pub and : Text
and = codes " AND "

unfoldable pub service_health_query : Option Text → Text
service_health_query none = entry_spans
service_health_query (some service) =
    entry_spans ++ and ++ service_field ++ codes ":" ++ escape_filter_value service
