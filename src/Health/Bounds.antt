-- ===== src/Health/Bounds.antt =====
-- The counts of a service health answer.
use rootprint.Common.{
  ℕ, ◌+◌, ◌≤◌, Text, Option, none, some, List, [], ◌∷◌, filter, map, take, arith, length,
  length-take-le, All, All-append, All-map, All-filter, All-take,
}
use rootprint.Common.Sort.{sort, descending, Descending, All-sort, sort-Descending, take-Descending}
use rootprint.Health.{
  TimeBucket, TermBucket, EndpointBucket, ServiceHealthBucket, ServiceHealthServiceRow, is_named,
  merge_time_buckets, service_rows_of, summary_of, sum_of,
}
use rootprint.Health.Endpoints.{
  endpoint_sources, Source, routes, paths, targets, urls, names, ServiceHealthEndpoint,
  endpoint_row, rows_of_bucket, endpoint_rows, rows_of, preferred_endpoints,
}
use rootprint.Health.Response.{Responses, ServiceHealthResponse, service_health}

-- No part of the answer has more failures than requests.
pub record IsConsistent {Metric : Type 0} (limit : ℕ) (r : ServiceHealthResponse Metric)
    : Type 0 where
  pub summary : r.summary.errors ≤ r.summary.requests
  pub buckets : All (λ b. b.errors ≤ b.requests) r.buckets
  pub services : All (λ s. s.errors ≤ s.requests) r.services
  pub endpoints : All (λ e. e.errors ≤ e.requests) r.endpoints
  pub at_most : length r.endpoints ≤ limit
  pub busiest_first : Descending (λ e. e.total_millis) r.endpoints

module _ {Metric : Type 0} (unfloor : Metric → Metric) (stringify : List Text → Text) where
  merge_time_buckets-Within :
      (totals errors : List (TimeBucket Metric))
      → All (λ b. b.errors ≤ b.requests) (merge_time_buckets unfloor totals errors)
  unfolding merge_time_buckets
  merge_time_buckets-Within totals errors =
      All-map (λ (b : ServiceHealthBucket Metric). b.errors ≤ b.requests) _ totals
        (λ b. omega arith)

  sum_of-le :
      (a c : ℕ) (bs : List (ServiceHealthBucket Metric))
      → All (λ b. b.errors ≤ b.requests) bs
      → a ≤ c
      → sum_of unfloor (λ b. b.errors) a bs ≤ sum_of unfloor (λ b. b.requests) c bs
  sum_of-le a c [] h le = le
  sum_of-le a c (b ∷ bs) (p, h) le = sum_of-le (a + b.errors) (c + b.requests) bs h (omega arith)

  service_rows_of-Within :
      (services errors : List (TermBucket Metric))
      → All (λ s. s.errors ≤ s.requests) (service_rows_of unfloor services errors)
  unfolding service_rows_of
  service_rows_of-Within services errors = All-filter _ _ _ (
      All-map (λ (s : ServiceHealthServiceRow Metric). s.errors ≤ s.requests) _ services
        (λ s. omega arith))

  abbrev Within : ServiceHealthEndpoint Metric → Type 0
  Within e = e.errors ≤ e.requests

  rows_of_bucket-Within :
      (source : Source) (service : Text) (counts : List (Text × ℕ)) (b : EndpointBucket Metric)
      → All Within (rows_of_bucket unfloor stringify source service counts b)
  unfolding endpoint_row
  rows_of_bucket-Within names service counts b = (omega arith, tt)
  rows_of_bucket-Within routes service counts b = All-map Within _ b.names (λ n. omega arith)
  rows_of_bucket-Within paths service counts b = All-map Within _ b.names (λ n. omega arith)
  rows_of_bucket-Within targets service counts b = All-map Within _ b.names (λ n. omega arith)
  rows_of_bucket-Within urls service counts b = All-map Within _ b.names (λ n. omega arith)

  endpoint_rows-Within :
      (source : Source) (bs : List (EndpointBucket Metric)) (service : Text)
      (counts : List (Text × ℕ))
      → All Within (endpoint_rows unfloor stringify source bs service counts)
  unfolding endpoint_rows
  endpoint_rows-Within source [] service counts = tt
  endpoint_rows-Within source (b ∷ bs) service counts =
      All-append Within _ _ (rows_of_bucket-Within source service counts b)
        (endpoint_rows-Within source bs service counts)

  rows_of-Within :
      (sources : List Source) (results : List (List (EndpointBucket Metric))) (service : Text)
      (counts : List (Text × ℕ))
      → All Within (rows_of unfloor stringify sources results service counts)
  unfolding rows_of
  rows_of-Within [] results service counts = tt
  rows_of-Within (s ∷ sources) results service counts =
      All-append Within _ _ (endpoint_rows-Within s _ service counts)
        (rows_of-Within sources results service counts)

  top_rows :
      (limit : ℕ) (rows : List (ServiceHealthEndpoint Metric))
      → All Within rows
      → All Within (
          take limit (sort (descending (λ e. e.total_millis)) (filter (λ e. is_named e.name) rows)))
        × (length (
              take limit
                (sort (descending (λ e. e.total_millis)) (filter (λ e. is_named e.name) rows)))
            ≤ limit)
        × Descending
            (λ e. e.total_millis)
            (take limit
              (sort (descending (λ e. e.total_millis)) (filter (λ e. is_named e.name) rows)))
  top_rows limit rows h =
      let named = filter (λ (e : ServiceHealthEndpoint Metric). is_named e.name) rows in
      let sorted = sort (descending (λ (e : ServiceHealthEndpoint Metric). e.total_millis)) named in
      (
        All-take Within limit sorted (
            All-sort (descending (λ (e : ServiceHealthEndpoint Metric). e.total_millis)) Within
              named (All-filter Within (λ e. is_named e.name) rows h)),
        length-take-le limit sorted,
        take-Descending (λ e. e.total_millis) limit sorted
            (sort-Descending (λ e. e.total_millis) named),
      )

  preferred_endpoints-Within :
      (responses errors : List (List (EndpointBucket Metric))) (service : Text) (limit : ℕ)
      → All Within (preferred_endpoints unfloor stringify responses errors service limit)
        × (length (preferred_endpoints unfloor stringify responses errors service limit) ≤ limit)
        × Descending
            (λ e. e.total_millis)
            (preferred_endpoints unfloor stringify responses errors service limit)
  unfolding preferred_endpoints
  preferred_endpoints-Within responses errors service limit =
      let counts =
        map (λ row. (row.id, row.requests))
          (rows_of unfloor stringify endpoint_sources errors service []) in
      top_rows limit (rows_of unfloor stringify endpoint_sources responses service counts)
        (rows_of-Within endpoint_sources responses service counts)

  -- Whatever the searches answer, no bucket, service, endpoint or summary of the answer of `getServiceHealth`
  -- has more errors than requests, and the endpoints are by falling total time and at most as many as asked for.
  pub service_health-IsConsistent :
      (service : Option Text) (limit interval : ℕ) (answers : Option (Responses Metric))
      → IsConsistent limit (service_health unfloor stringify service limit interval answers)
  unfolding service_health summary_of
  service_health-IsConsistent service limit interval none = record {
    summary = omega arith;
    buckets = tt;
    services = tt;
    endpoints = tt;
    at_most = omega arith;
    busiest_first = tt;
  }
  service_health-IsConsistent none limit interval (some r) = record {
    summary = sum_of-le 0 0 _ (merge_time_buckets-Within r.total_time r.error_time) (omega arith);
    buckets = merge_time_buckets-Within r.total_time r.error_time;
    services = service_rows_of-Within r.services r.error_services;
    endpoints = tt;
    at_most = omega arith;
    busiest_first = tt;
  }
  service_health-IsConsistent (some service) limit interval (some r) =
      let (within, at_most, busiest) =
        preferred_endpoints-Within r.endpoints r.endpoint_errors service limit in
      record {
        summary =
            sum_of-le 0 0 _ (merge_time_buckets-Within r.total_time r.error_time) (omega arith);
        buckets = merge_time_buckets-Within r.total_time r.error_time;
        services = (
          sum_of-le 0 0 _ (merge_time_buckets-Within r.total_time r.error_time) (omega arith),
          tt,
        );
        endpoints = within;
        at_most = at_most;
        busiest_first = busiest;
      }
