-- ===== src/Logs.antt =====
-- The values of fields in the logs, apps/api/src/services/log.service.ts. `search` stands for a search of
-- Quickwit that succeeds: from the query, the fields to aggregate and the number of buckets for each, the
-- aggregations of its answer. If one of the searches of a call fails, so does the call.
pub mod Entries
pub mod Bulk
use rootprint.Common.{
  ℕ, ◌+◌, ◌/◌, min, Text, text_eq, nat_eq, ◌==◌, Bool, not, Option, none, some, List, [], ◌∷◌, ◌++◌,
  if◌then◌else◌, is_empty, filter, map, includes, length, ltb, unique,
}
use mathlib.Core.Option
use rootprint.Common.Dict
use rootprint.Common.Dict.{Dict}
use rootprint.Common.Sort.{sort, descending}
use rootprint.Query.{compose_query}
use rootprint.Url.{Filter}

-- `key` is what `String(b.key)` gives.
pub record Bucket : Type 0 where
  pub key : Text
  pub key_as_string : Option Text
  pub doc_count : ℕ

pub record BucketAggregation : Type 0 where
  pub buckets : List Bucket
  pub sum_other_doc_count : Option ℕ

abbrev pub as_buckets : Option BucketAggregation → List Bucket
as_buckets none = []
as_buckets (some agg) = agg.buckets

abbrev other_docs : Option BucketAggregation → ℕ
other_docs none = 0
other_docs (some agg) = Option.get_or agg.sum_other_doc_count 0

pub is_truncated : Option BucketAggregation → Bool
is_truncated agg = ltb 0 (other_docs agg)

pub record FieldValueEntry : Type 0 where
  pub value : Text
  pub count : ℕ

abbrev pub value_of : Bucket → Text
value_of b = Option.get_or b.key_as_string b.key

pub add_bucket : Dict Text ℕ → Bucket → Dict Text ℕ
unfolding Dict.get Dict.set
add_bucket counts b =
    if is_empty (value_of b)
    then counts
    else Dict.set counts (value_of b) (Option.get_or (Dict.get counts (value_of b)) 0 + b.doc_count)

pub add_buckets : Dict Text ℕ → List Bucket → Dict Text ℕ
unfolding add_bucket
add_buckets counts [] = counts
add_buckets counts (b ∷ bs) = add_buckets (add_bucket counts b) bs

abbrev pub to_entry : Text × ℕ → FieldValueEntry
to_entry (value, count) = record { value = value; count = count }

abbrev pub by_count : FieldValueEntry → FieldValueEntry → Bool
by_count = descending (λ e. e.count)

unfoldable pub buckets_to_entries : Option BucketAggregation → List FieldValueEntry
unfolding add_buckets sort
buckets_to_entries agg = sort by_count (map to_entry (add_buckets [] (as_buckets agg)))

pub record BulkGroup : Type 0 where
  pub fields : List Text
  pub effective_filters : List Filter

abbrev pub is_filtered : List Filter → Text → Bool
is_filtered filters field = includes (map (λ f. f.field) filters) field

abbrev pub without : Text → List Filter → List Filter
without field filters = filter (λ f. not (f.field == field)) filters

abbrev pub shared_group : List Text → List Filter → List BulkGroup
shared_group unfiltered filters =
    if ltb 0 (length unfiltered)
    then record { fields = unfiltered; effective_filters = filters } ∷ []
    else []

abbrev pub own_group : List Filter → Text → BulkGroup
own_group filters field = record { fields = field ∷ []; effective_filters = without field filters }

pub group_fields_for_bulk : List Text → List Filter → List BulkGroup
unfolding unique
group_fields_for_bulk fields filters =
    shared_group (filter (λ f. not (is_filtered filters f)) (unique fields)) filters
    ++ map (own_group filters) (filter (is_filtered filters) (unique fields))

abbrev pub field_values_max : ℕ
field_values_max = 65000

-- Where no field is asked for, the quotient of the code is infinite.
pub bulk_size : List Text → ℕ → ℕ
unfolding unique
bulk_size fields limit =
    let n = length (unique fields) in if n == 0 then limit else min limit (field_values_max / n)

pub record FieldValuesBulk : Type 0 where
  pub values : Dict Text (List FieldValueEntry)
  pub truncated : Dict Text Bool

abbrev pub Search : Type 0
Search = Text → List Text → ℕ → Dict Text BucketAggregation

pub put_field : Dict Text BucketAggregation → FieldValuesBulk → Text → FieldValuesBulk
unfolding Dict.get Dict.set buckets_to_entries is_truncated
put_field aggregations r field = record {
  values = Dict.set r.values field (buckets_to_entries (Dict.get aggregations field));
  truncated = Dict.set r.truncated field (is_truncated (Dict.get aggregations field));
}

pub put_fields : Dict Text BucketAggregation → FieldValuesBulk → List Text → FieldValuesBulk
unfolding put_field
put_fields aggregations r [] = r
put_fields aggregations r (f ∷ fs) = put_fields aggregations (put_field aggregations r f) fs

module _ (answer : BulkGroup → Dict Text BucketAggregation) where
  pub put_groups : FieldValuesBulk → List BulkGroup → FieldValuesBulk
  unfolding put_fields
  put_groups r [] = r
  put_groups r (g ∷ gs) = put_groups (put_fields (answer g) r g.fields) gs

pub answer_of : Search → Text → ℕ → BulkGroup → Dict Text BucketAggregation
unfolding compose_query
answer_of search q size g = search (compose_query q g.effective_filters) g.fields size

pub field_values_bulk : Search → List Text → Text → List Filter → ℕ → FieldValuesBulk
unfolding put_groups answer_of group_fields_for_bulk bulk_size
field_values_bulk search fields q filters limit =
    put_groups (answer_of search q (bulk_size fields limit))
      (record { values = []; truncated = [] }) (group_fields_for_bulk fields filters)
