-- ===== src/Tests/Services.antt =====
-- Service health and the widths of its buckets, at small inputs.
use rootprint.Common.{
  Bool, false, nat_eq, text_eq, ℕ, zero, suc, ◌*◌, ◌≤◌, ◌≡◌, refl, Text, codes, true, none, some,
  List, [], ◌∷◌, ◌++◌, All, map, ap, arith, text_beq, join,
}
use rootprint.Health.{TimeBucket, TermBucket}
use rootprint.Health.Response.{Responses, service_health}
use rootprint.Health.Failures.{Request}
use rootprint.Query.{escape_filter_value}
use rootprint.Health.Errors.{ErrorHit, string, number, internal, error_rows, service_errors_query}
use rootprint.Time.{
  Numerals, widths, bucket_seconds, format_interval, interval_seconds, within_bucket_cap,
  bucket_seconds-bounds,
}

-- Numbers in unary, which stand for the decimal ones.
abbrev ones : ℕ → Text
ones zero = []
ones (suc n) = b'1' ∷ ones n

abbrev count_ones : Text → ℕ
count_ones [] = zero
count_ones (c ∷ s) = suc (count_ones s)

count_ones-ones : (n : ℕ) → count_ones (ones n) ≡ n
count_ones-ones zero = refl
count_ones-ones (suc n) = ap (λ m. suc m) (count_ones-ones n)

abbrev unary : Numerals
unary = record { show = ones; read = count_ones; read-show = count_ones-ones }

format_interval_test : format_interval unary 7200 ≡ codes "11h"
unfolding format_interval
format_interval_test = refl

bucket_seconds_test : bucket_seconds 3600 ≡ 60
unfolding bucket_seconds
bucket_seconds_test = refl

bucket_seconds-bounds_example :
    (3601 ≤ 60 * bucket_seconds 3601)
    × All (λ w. 3601 ≤ 60 * w → bucket_seconds 3601 ≤ w) widths
    × (interval_seconds unary (format_interval unary (bucket_seconds 3601)) ≡ bucket_seconds 3601)
    × (within_bucket_cap unary 3601 (format_interval unary (bucket_seconds 3601)) ≡ true)
bucket_seconds-bounds_example = bucket_seconds-bounds unary 3601 (omega arith)

abbrev time_bucket : ℕ → ℕ → TimeBucket ℕ
time_bucket key n = record { key_ms = key; doc_count = n; p50 = some 3; p95 = some 9; avg = none }

abbrev term_bucket : Text → ℕ → ℕ → TermBucket ℕ
term_bucket key n total = record {
  key = key;
  doc_count = n;
  p50 = some 3;
  p95 = some 9;
  total = some total;
  peers = [];
  time = [];
}

-- One endpoint by its route, with a failure, and more failures in a bucket than requests.
abbrev answers : Responses ℕ
answers = record {
  services = term_bucket (codes "api") 5 20 ∷ [];
  sum_other_doc_count = 0;
  service_time = [];
  endpoints =
      (record {
        bucket = term_bucket (codes "/a") 4 12;
        names = term_bucket (codes "GET") 4 12 ∷ [];
      }
        ∷ [])
      ∷ [];
  endpoint_errors =
      (record { bucket = term_bucket (codes "/a") 1 3; names = term_bucket (codes "GET") 1 3 ∷ [] }
        ∷ [])
      ∷ [];
  error_time = time_bucket 1000 7 ∷ [];
  error_services = [];
  total_time = time_bucket 1000 5 ∷ [];
  summary_p50 = some 3;
  summary_p95 = none;
  dependencies = [];
  error_ops = [];
  num_hits = 7;
}

-- Stands for `JSON.stringify`.
abbrev flat : List Text → Text
flat [] = []
flat (t ∷ ts) = t ++ b'|' ∷ flat ts

answers_test :
    map {B = Text × ℕ × ℕ}
      (λ e. (e.name, e.requests, e.errors))
      (service_health (λ m. m) flat (some (codes "api")) 10 60 (some answers)).endpoints
    ≡ (codes "GET /a", 4, 1) ∷ []
unfolding service_health text_beq
answers_test = refl

-- Three requests of one endpoint, of which one failed.
abbrev request : Bool → Request
request failed = record {
  key_ms = 1000;
  service = codes "api";
  endpoint =
      flat (codes "api" ∷ codes "span_attributes.http.route" ∷ codes "/a" ∷ codes "GET" ∷ []);
  failed = failed;
}

abbrev requests : List Request
requests = request false ∷ request true ∷ request false ∷ []

abbrev counted : Responses ℕ
counted = record answers {
  services = term_bucket (codes "api") 3 20 ∷ [];
  error_services = term_bucket (codes "api") 1 20 ∷ [];
  endpoints =
      (record {
        bucket = term_bucket (codes "/a") 3 12;
        names = term_bucket (codes "GET") 3 12 ∷ [];
      }
        ∷ [])
      ∷ [];
  total_time = time_bucket 1000 3 ∷ [];
  error_time = time_bucket 1000 1 ∷ [];
}

abbrev error_hit : ErrorHit
error_hit = record {
  trace_id = some (codes "t");
  span_id = some (codes "s");
  status_message = some [];
  events =
      record { message = none; kind = none }
      ∷ record { message = some none; kind = some (some (codes "Timeout")) }
      ∷ record { message = some (some (codes "other")); kind = none }
      ∷ [];
  start_nanos = some 1500000;
  end_nanos = some 1400000;
  service_name = none;
  span_name = some (codes "GET");
  span_kind = some 3;
  response_status_code = string [];
  status_code = number 503;
}

-- The message is of the first event that has one of the two keys, and the times of a clock that was set
-- back make no duration.
error_hit_test :
    error_rows (λ _. none) (error_hit ∷ record error_hit { span_id = none } ∷ [])
    ≡ record {
      trace_id = codes "t";
      span_id = codes "s";
      timestamp_ms = 2;
      service = [];
      operation = codes "GET";
      kind = codes "client";
      message = codes "Timeout";
      http_status = some 503;
      duration_nanos = 0;
    }
      ∷ []
unfolding error_rows
error_hit_test = refl

service_errors_query_test :
    service_errors_query (record {
      service = some (codes "a b");
      operation = none;
      kind = some internal;
      http_status = none;
    })
    ≡ codes "span_status.code:error AND service_name:\"a b\" AND span_kind:IN [0 1]"
unfolding service_errors_query escape_filter_value join
service_errors_query_test = refl
