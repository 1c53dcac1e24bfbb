-- ===== src/Health/Response.antt =====
-- The answer of `getServiceHealth` of apps/api/src/services/service-health.service.ts, from the answers
-- to its searches.
use rootprint.Common.{ℕ, Text, Bool, false, ltb, Option, none, some, List, [], ◌∷◌, filter, map}
use rootprint.Health.{
  TimeBucket, TermBucket, EndpointBucket, ServiceHealthBucket, ServiceHealthServiceRow,
  ServiceHealthFailingOperation, ServiceHealthDependency, ServiceLatency, Summary, is_named,
  merge_time_buckets, service_rows_of, failing_operations_of, dependencies_of, service_latencies_of,
  summary_of,
}
use rootprint.Health.Endpoints.{ServiceHealthEndpoint, preferred_endpoints}

-- The answers to the searches; an aggregation that is missing has no buckets.
pub record Responses (Metric : Type 0) : Type 0 where
  pub services : List (TermBucket Metric)
  pub sum_other_doc_count : ℕ
  pub service_time : List (TermBucket Metric)
  pub endpoints : List (List (EndpointBucket Metric))
  pub endpoint_errors : List (List (EndpointBucket Metric))
  pub error_time : List (TimeBucket Metric)
  pub error_services : List (TermBucket Metric)
  pub total_time : List (TimeBucket Metric)
  pub summary_p50 : Option Metric
  pub summary_p95 : Option Metric
  pub dependencies : List (TermBucket Metric)
  pub error_ops : List (TermBucket Metric)
  pub num_hits : ℕ

pub data TelemetryStatus : Type 0 where
  available span_store_missing : TelemetryStatus

pub record ServiceHealthResponse (Metric : Type 0) : Type 0 where
  pub telemetry_status : TelemetryStatus
  pub services : List (ServiceHealthServiceRow Metric)
  pub service_names : List Text
  pub services_truncated : Bool
  pub interval_seconds : ℕ
  pub summary : Summary Metric
  pub buckets : List (ServiceHealthBucket Metric)
  pub latency_keys_ms : List ℕ
  pub service_latencies : List (ServiceLatency Metric)
  pub endpoints : List (ServiceHealthEndpoint Metric)
  pub failing_operations : List ServiceHealthFailingOperation
  pub dependencies : List (ServiceHealthDependency Metric)

abbrev first_times : {Metric : Type 0} → List (TermBucket Metric) → List (TimeBucket Metric)
first_times [] = []
first_times (b ∷ bs) = b.time

module _ {Metric : Type 0} (unfloor : Metric → Metric) (stringify : List Text → Text) where
  missing_response : ℕ → ServiceHealthResponse Metric
  missing_response interval = record {
    telemetry_status = span_store_missing;
    services = [];
    service_names = [];
    services_truncated = false;
    interval_seconds = interval;
    summary = record { requests = 0; errors = 0; error_spans = 0; p50 = none; p95 = none };
    buckets = [];
    latency_keys_ms = [];
    service_latencies = [];
    endpoints = [];
    failing_operations = [];
    dependencies = [];
  }

  row_of_summary : Text → Summary Metric → ServiceHealthServiceRow Metric
  row_of_summary service s = record {
    name = service;
    requests = s.requests;
    errors = s.errors;
    p50 = s.p50;
    p95 = s.p95;
  }

  abbrev services_of :
      Option Text → Summary Metric → Responses Metric → List (ServiceHealthServiceRow Metric)
  services_of none s r = service_rows_of unfloor r.services r.error_services
  services_of (some service) s r = row_of_summary service s ∷ []

  abbrev endpoints_of : Option Text → ℕ → Responses Metric → List (ServiceHealthEndpoint Metric)
  endpoints_of none limit r = []
  endpoints_of (some service) limit r =
      preferred_endpoints unfloor stringify r.endpoints r.endpoint_errors service limit

  -- `none` for a span store that is missing.
  unfoldable pub service_health :
      Option Text → ℕ → ℕ → Option (Responses Metric) → ServiceHealthResponse Metric
  unfolding missing_response row_of_summary service_rows_of preferred_endpoints merge_time_buckets
      summary_of failing_operations_of dependencies_of service_latencies_of
  service_health service limit interval none = missing_response interval
  service_health service limit interval (some r) =
      let buckets = merge_time_buckets unfloor r.total_time r.error_time in
      let summary = summary_of unfloor buckets r.num_hits r.summary_p50 r.summary_p95 in
      record {
        telemetry_status = available;
        services = services_of service summary r;
        service_names = filter is_named (map (λ b. b.key) r.services);
        services_truncated = ltb 0 r.sum_other_doc_count;
        interval_seconds = interval;
        summary = summary;
        buckets = buckets;
        latency_keys_ms = map (λ b. b.key_ms) (first_times r.service_time);
        service_latencies = service_latencies_of unfloor r.service_time;
        endpoints = endpoints_of service limit r;
        failing_operations = failing_operations_of unfloor r.error_ops;
        dependencies = dependencies_of unfloor r.dependencies;
      }
