-- ===== src/Health/Endpoints.antt =====
-- The endpoints of a service, `preferredEndpoints` of
-- apps/api/src/services/service-health.service.ts. `stringify` is `JSON.stringify` of a list of texts.
use rootprint.Common.{
  ℕ, ◌-◌, min, Text, codes, text_eq, Bool, true, false, not, ◌||◌, leb, Option, List, [], ◌∷◌, ◌++◌,
  if◌then◌else◌, is_empty, filter, map, take, join, includes, contains, get_elem?,
}
use mathlib.Core.Option
use rootprint.Common.Sort.{sort, descending}
use rootprint.Query.{escape_filter_value}
use rootprint.Health.{TermBucket, EndpointBucket, percentile, count_of, is_named, entry_spans, and}

pub data Source : Type 0 where
  routes paths targets urls names : Source

abbrev pub endpoint_sources : List Source
endpoint_sources = routes ∷ paths ∷ targets ∷ urls ∷ names ∷ []

unfoldable pub field_of : Source → Text
field_of routes = codes "span_attributes.http.route"
field_of paths = codes "span_attributes.url.path"
field_of targets = codes "span_attributes.http.target"
field_of urls = codes "span_attributes.url.full"
field_of names = codes "span_name"

abbrev pub is_names : Source → Bool
is_names names = true
is_names _ = false

-- The place of a source in the list.
abbrev pub index_of_source : Source → ℕ
index_of_source routes = 0
index_of_source paths = 1
index_of_source targets = 2
index_of_source urls = 3
index_of_source names = 4

pub record ServiceHealthEndpoint (Metric : Type 0) : Type 0 where
  pub id : Text
  pub service : Text
  pub name : Text
  pub route_available : Bool
  pub operation : Text
  pub query : Text
  pub requests : ℕ
  pub errors : ℕ
  pub total_millis : ℕ
  pub p50 : Option Metric
  pub p95 : Option Metric

to_upper_ascii : Text → Text
to_upper_ascii [] = []
to_upper_ascii (c ∷ s) =
    (if leb 97 c then (if leb c 122 then c - 32 else c) else c) ∷ to_upper_ascii s

abbrev http_methods : List Text
http_methods =
    codes "CONNECT"
    ∷ codes "DELETE"
    ∷ codes "GET"
    ∷ codes "HEAD"
    ∷ codes "OPTIONS"
    ∷ codes "PATCH"
    ∷ codes "POST"
    ∷ codes "PUT"
    ∷ codes "TRACE"
    ∷ []

is_http_method : Text → Bool
unfolding to_upper_ascii
is_http_method value = includes http_methods (to_upper_ascii value)

-- A name that is a method is of ASCII letters, so `toUpperCase` changes only those.
unfoldable pub endpoint_label : Source → Text → Text → Text
unfolding is_http_method contains
endpoint_label source value span_name =
    if is_names source
    then value
    else if is_http_method span_name
    then to_upper_ascii span_name ++ codes " " ++ value
    else if contains span_name value
    then span_name
    else value

abbrev exclusion : Source → Text
exclusion source = codes "NOT " ++ field_of source ++ codes ":*"

-- A span counts under the first of the sources that it has a value for.
unfoldable pub endpoint_source_query : Text → ℕ → Text
unfolding field_of
endpoint_source_query scope source_index =
    let higher_priority_exclusions =
      join and (map exclusion (take source_index endpoint_sources)) in
    if is_empty higher_priority_exclusions
    then scope
    else scope ++ and ++ higher_priority_exclusions

module _ {Metric : Type 0} (unfloor : Metric → Metric) (stringify : List Text → Text) where
  unfoldable pub endpoint_row :
      Text
      → Source
      → Text
      → Text
      → TermBucket Metric
      → List (Text × ℕ)
      → ServiceHealthEndpoint Metric
  unfolding endpoint_label endpoint_source_query
  endpoint_row service source value span_name bucket error_counts =
      let source_query = endpoint_source_query entry_spans (index_of_source source) in
      let id = stringify (service ∷ field_of source ∷ value ∷ span_name ∷ []) in
      record {
        id = id;
        service = service;
        name = endpoint_label source value span_name;
        route_available = not (is_names source) || not (is_http_method span_name);
        operation = span_name;
        query =
            if is_names source
            then source_query
            else source_query ++ and ++ field_of source ++ codes ":" ++ escape_filter_value value;
        requests = bucket.doc_count;
        errors = min bucket.doc_count (count_of error_counts id);
        total_millis = Option.get_or bucket.total 0;
        p50 = percentile unfloor bucket.p50;
        p95 = percentile unfloor bucket.p95;
      }

  abbrev pub rows_of_bucket :
      Source → Text → List (Text × ℕ) → EndpointBucket Metric → List (ServiceHealthEndpoint Metric)
  rows_of_bucket source service error_counts b =
      if is_names source
      then endpoint_row service source b.bucket.key b.bucket.key b.bucket error_counts ∷ []
      else map (λ n. endpoint_row service source b.bucket.key n.key n error_counts) b.names

  unfoldable pub endpoint_rows :
      Source
      → List (EndpointBucket Metric)
      → Text
      → List (Text × ℕ)
      → List (ServiceHealthEndpoint Metric)
  unfolding endpoint_row
  endpoint_rows source [] service error_counts = []
  endpoint_rows source (b ∷ bs) service error_counts =
      rows_of_bucket source service error_counts b ++ endpoint_rows source bs service error_counts

  -- The buckets of each source; one that was not searched has none.
  unfoldable pub rows_of :
      List Source
      → List (List (EndpointBucket Metric))
      → Text
      → List (Text × ℕ)
      → List (ServiceHealthEndpoint Metric)
  unfolding endpoint_rows
  rows_of [] results service error_counts = []
  rows_of (source ∷ sources) results service error_counts =
      endpoint_rows source (Option.get_or (get_elem? results (index_of_source source)) []) service
        error_counts
      ++ rows_of sources results service error_counts

  unfoldable pub preferred_endpoints :
      List (List (EndpointBucket Metric))
      → List (List (EndpointBucket Metric))
      → Text
      → ℕ
      → List (ServiceHealthEndpoint Metric)
  unfolding rows_of sort
  preferred_endpoints responses error_responses service limit =
      let error_counts =
        map (λ row. (row.id, row.requests)) (rows_of endpoint_sources error_responses service []) in
      take limit (
        sort (descending (λ e. e.total_millis))
          (filter (λ e. is_named e.name) (rows_of endpoint_sources responses service error_counts)))
