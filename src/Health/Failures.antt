-- ===== src/Health/Failures.antt =====
-- The failures of a service health answer against the requests of its scope.
use rootprint.Common.{
  ℕ, ◌≡◌, Text, nat_eq, text_eq, ◌==◌, Bool, ◌&&◌, Option, none, some, List, [], filter, map,
  length, All,
}
use mathlib.Core.Option
use rootprint.Health.{EndpointBucket, count_of}
use rootprint.Health.Endpoints.{endpoint_sources, ServiceHealthEndpoint, rows_of}
use rootprint.Health.Response.{Responses, ServiceHealthResponse}

-- A request of the range; `endpoint` is the id of the row that it counts under.
pub record Request : Type 0 where
  pub key_ms : ℕ
  pub service : Text
  pub endpoint : Text
  pub failed : Bool

abbrev pub number : (Request → Bool) → List Request → ℕ
number p requests = length (filter p requests)

abbrev pub number_failed : (Request → Bool) → List Request → ℕ
number_failed p requests = number (λ q. p q && q.failed) requests

-- The failed among the requests of each bucket and each endpoint; without a service those of each service, and with
-- one the row of that service is the summary.
pub record CountsFailures {Metric : Type 0} (requests : List Request) (service : Option Text)
    (r : ServiceHealthResponse Metric) : Type 0 where
  pub failed_buckets :
      All (λ b. b.errors ≡ number_failed (λ q. q.key_ms == b.key_ms) requests) r.buckets
  pub failed_services :
      service ≡ none
      → All (λ s. s.errors ≡ number_failed (λ q. q.service == s.name) requests) r.services
  pub summary_row :
      (name : Text)
      → service ≡ some name
      → All
          (λ s. (s.name ≡ name) × (s.requests ≡ r.summary.requests) × (s.errors ≡ r.summary.errors))
          r.services
  pub failed_endpoints :
      All (λ e. e.errors ≡ number_failed (λ q. q.endpoint == e.id) requests) r.endpoints

module _ {Metric : Type 0} (unfloor : Metric → Metric) (stringify : List Text → Text) where
  -- The requests by endpoint of an answer of the endpoint searches.
  abbrev pub counts_of : List (List (EndpointBucket Metric)) → Text → List (Text × ℕ)
  counts_of results service =
      map (λ row. (row.id, row.requests))
        (rows_of unfloor stringify endpoint_sources results service [])

  -- The searches count the requests right: those of all requests each bucket's, and those of the failed ones the
  -- failed ones of each bucket.
  pub record AreCounted (service : Text) (r : Responses Metric) (requests : List Request)
      : Type 0 where
    pub times : All (λ b. b.doc_count ≡ number (λ q. q.key_ms == b.key_ms) requests) r.total_time
    pub failed_times :
        (k : ℕ)
        → count_of (map (λ b. (b.key_ms, b.doc_count)) r.error_time) k
          ≡ number_failed (λ q. q.key_ms == k) requests
    pub services : All (λ b. b.doc_count ≡ number (λ q. q.service == b.key) requests) r.services
    pub failed_services :
        (k : Text)
        → count_of (map (λ b. (b.key, b.doc_count)) r.error_services) k
          ≡ number_failed (λ q. q.service == k) requests
    pub endpoints :
        All
          (λ e. e.requests ≡ number (λ q. q.endpoint == e.id) requests)
          (rows_of unfloor stringify endpoint_sources r.endpoints service [])
    pub failed_endpoints :
        (id : Text)
        → count_of (counts_of r.endpoint_errors service) id
          ≡ number_failed (λ q. q.endpoint == id) requests

  module _ (requests : List Request) where
    abbrev Counted : ServiceHealthEndpoint Metric → Type 0
    Counted e = e.requests ≡ number (λ q. q.endpoint == e.id) requests

    abbrev Exact : ServiceHealthEndpoint Metric → Type 0
    Exact e = e.errors ≡ number_failed (λ q. q.endpoint == e.id) requests
