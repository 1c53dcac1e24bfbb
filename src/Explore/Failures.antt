-- ===== src/Explore/Failures.antt =====
-- The counts of the trace explorer against the spans of its scope.
use rootprint.Common.{
  ◌≡◌, refl, nat_eq, text_eq, ℕ, ◌+◌, ◌≤◌, Text, Eq, ◌==◌, Bool, true, not, ◌&&◌, some, List, [],
  ◌∷◌, filter, map, arith, length, All, All-map, All-filter,
}
use rootprint.Health.{count_of}
use rootprint.Explore.{
  ExploreStatus, any_status, only_errors, only_ok, Percentiles, Totals, Errors, TimeBucket,
  OperationBucket, ExploreBucket, ExploreOperation, ExploreOverview, error_count, errors_searched,
  bucket_of, operation_of, sum_of, get_explore_overview,
}

-- A span that every other condition of the query holds of.
pub record Span : Type 0 where
  pub key_ms : ℕ
  pub failed : Bool

-- What the clause of the status keeps.
abbrev pub has_status : ExploreStatus → Span → Bool
has_status any_status s = true
has_status only_errors s = s.failed
has_status only_ok s = not s.failed

abbrev pub number : (Span → Bool) → List Span → ℕ
number p spans = length (filter p spans)

-- The spans of a bucket that the query finds, and the failed among them.
abbrev pub is_found : ExploreStatus → ℕ → Span → Bool
is_found status key_ms s = has_status status s && s.key_ms == key_ms

abbrev pub is_found_failed : ExploreStatus → ℕ → Span → Bool
is_found_failed status key_ms s = has_status status s && (s.key_ms == key_ms && s.failed)

failed-le :
    (key_ms : ℕ) (spans : List Span)
    → number (is_found_failed any_status key_ms) spans ≤ number (is_found any_status key_ms) spans
failed-le key_ms [] = omega arith
failed-le key_ms (s ∷ spans) = ground (arith, failed-le key_ms spans)

only_errors-all :
    (key_ms : ℕ) (spans : List Span)
    → number (is_found only_errors key_ms) spans ≡ number (is_found_failed only_errors key_ms) spans
only_errors-all key_ms [] = refl
only_errors-all key_ms (s ∷ spans) = ground (arith, only_errors-all key_ms spans)

only_ok-none : (key_ms : ℕ) (spans : List Span) → number (is_found_failed only_ok key_ms) spans ≡ 0
only_ok-none key_ms [] = refl
only_ok-none key_ms (s ∷ spans) = ground (arith, only_ok-none key_ms spans)

error_count-le :
    {K : Type 0} ⦃eq : Eq K⦄ (status : ExploreStatus) (counts : List (K × ℕ)) (key : K) (total : ℕ)
    → error_count status counts key total ≤ total
unfolding error_count
error_count-le any_status counts key total = omega arith
error_count-le only_errors counts key total = omega arith
error_count-le only_ok counts key total = omega arith

error_count-exact :
    (status : ExploreStatus) (errors : Errors) (key_ms total : ℕ) (spans : List Span)
    → total ≡ number (is_found status key_ms) spans
    → (status ≡ any_status
        → count_of errors.time key_ms ≡ number (is_found_failed any_status key_ms) spans)
    → error_count status (errors_searched status errors).time key_ms total
      ≡ number (is_found_failed status key_ms) spans
unfolding error_count errors_searched count_of
error_count-exact any_status errors key_ms total spans found exact =
    omega (arith, found, exact refl, failed-le key_ms spans)
error_count-exact only_errors errors key_ms total spans found exact =
    omega (arith, found, only_errors-all key_ms spans)
error_count-exact only_ok errors key_ms total spans found exact =
    omega (arith, only_ok-none key_ms spans)

module _ {Metric : Type 0} where
  bucket_of-exact :
      (status : ExploreStatus) (errors : Errors) (spans : List Span)
      (times : List (TimeBucket Metric))
      → ((key_ms : ℕ)
          → status ≡ any_status
          → count_of errors.time key_ms ≡ number (is_found_failed any_status key_ms) spans)
      → All (λ b. b.doc_count ≡ number (is_found status b.key_ms) spans) times
      → All
          (λ b. b.errors ≡ number (is_found_failed status b.key_ms) spans)
          (map (bucket_of status (errors_searched status errors)) times)
  unfolding bucket_of
  bucket_of-exact status errors spans [] exact found = tt
  bucket_of-exact status errors spans (b ∷ times) exact (p, found) = (
    error_count-exact status errors b.key_ms b.doc_count spans p (exact b.key_ms),
    bucket_of-exact status errors spans times exact found,
  )

  operation_of-le :
      (status : ExploreStatus) (errors : Errors) (b : OperationBucket Metric)
      → (operation_of status errors b).errors ≤ (operation_of status errors b).spans
  unfolding operation_of
  operation_of-le status errors b = error_count-le status errors.ops b.key b.doc_count

  bucket_of-le :
      (status : ExploreStatus) (errors : Errors) (b : TimeBucket Metric)
      → (bucket_of status errors b).errors ≤ (bucket_of status errors b).spans
  unfolding bucket_of
  bucket_of-le status errors b = error_count-le status errors.time b.key_ms b.doc_count

  sum_of-le :
      (a c : ℕ) (bs : List (ExploreBucket Metric))
      → All (λ b. b.errors ≤ b.spans) bs
      → a ≤ c
      → sum_of (λ b. b.errors) a bs ≤ sum_of (λ b. b.spans) c bs
  unfolding sum_of
  sum_of-le a c [] h le = le
  sum_of-le a c (b ∷ bs) (p, h) le = sum_of-le (a + b.errors) (c + b.spans) bs h (omega arith)

  -- An overview that counts the failed among the spans right.
  pub record CountsFailures (status : ExploreStatus) (spans : List Span)
      (o : ExploreOverview Metric) : Type 0 where
    pub buckets : All (λ b. b.errors ≡ number (is_found_failed status b.key_ms) spans) o.buckets
    pub operations : All (λ row. row.errors ≤ row.spans) o.operations
    pub summary : o.errors ≤ o.spans

  -- Where the buckets of `getExploreOverview` count the spans that the status lets through, and the search for failed
  -- spans, which is made only without a status, counts the failed ones of each bucket, every bucket of the overview has
  -- as errors the failed spans among those it counts, under each of the three statuses; and no operation and no summary
  -- has more errors than spans.
  pub get_explore_overview-CountsFailures :
      (status : ExploreStatus) (unfiltered : Bool) (totals : Totals Metric) (errors : Errors)
      (facets : List Text) (no_percentiles : Percentiles Metric) (spans : List Span)
      → All (λ b. b.doc_count ≡ number (is_found status b.key_ms) spans) totals.time
      → ((key_ms : ℕ)
          → status ≡ any_status
          → count_of errors.time key_ms ≡ number (is_found_failed any_status key_ms) spans)
      → CountsFailures status spans
          (get_explore_overview status unfiltered (some totals) errors facets no_percentiles)
  unfolding get_explore_overview
  get_explore_overview-CountsFailures status unfiltered totals errors facets no_percentiles spans
        found exact =
      record {
        buckets = bucket_of-exact status errors spans totals.time exact found;
        operations = All-filter _ _ _ (
            All-map (λ (row : ExploreOperation Metric). row.errors ≤ row.spans) _ totals.ops
              (operation_of-le status (errors_searched status errors)));
        summary =
            sum_of-le 0 0 _
              (All-map (λ (b : ExploreBucket Metric). b.errors ≤ b.spans) _ totals.time
                (bucket_of-le status (errors_searched status errors)))
              (omega arith);
      }
