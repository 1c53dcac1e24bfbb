-- ===== src/Logs/Bulk.antt =====
-- The values of many fields at once, `fieldValuesBulk` of apps/api/src/services/log.service.ts.
use rootprint.Common.{
  ℕ, ◌*◌, ◌/◌, ◌≤◌, ◌<◌, min, ◌≡◌, refl, ◌∙◌, inl, inr, Text, text_eq, nat_eq, ◌==◌, ==-sound, true,
  false, not, Bool-cases, none, some, List, [], ◌∷◌, ◌++◌, if◌then◌else◌, filter, map, includes,
  includes-filter, includes-unique, unique, length, length-filter-le, lt→ltb, suc, arith,
}
use native.Mathlib.Nat.{mul-le-mul_left, mul-le-mul_right, div-add-mod, mul_comm}
use rootprint.Common.Dict
use rootprint.Common.Dict.{Dict}
use rootprint.Query.{compose_query}
use rootprint.Url.{Filter}
use rootprint.Logs.{
  BucketAggregation, FieldValuesBulk, Search, BulkGroup, is_filtered, without, shared_group,
  own_group, group_fields_for_bulk, field_values_max, bulk_size, put_field, put_fields, answer_of,
  put_groups, field_values_bulk, buckets_to_entries, is_truncated,
}

without-unfiltered :
    (x : Text) (filters : List Filter) → is_filtered filters x ≡ false → without x filters ≡ filters
without-unfiltered x [] h = refl
without-unfiltered x (f ∷ filters) h = ground (arith, without-unfiltered x filters)

-- What is found for a field after the fields of a group were put.
module _ (aggregations : Dict Text BucketAggregation) (x : Text) where
  get-put_fields :
      (r : FieldValuesBulk) (fs : List Text)
      → (Dict.get (put_fields aggregations r fs).values x ≡ (
          if includes fs x
          then some (buckets_to_entries (Dict.get aggregations x))
          else Dict.get r.values x))
        × (Dict.get (put_fields aggregations r fs).truncated x ≡ (
            if includes fs x
            then some (is_truncated (Dict.get aggregations x))
            else Dict.get r.truncated x))
  unfolding put_fields put_field
  get-put_fields r [] = (refl, refl)
  get-put_fields r (f ∷ fs) =
      let (p, q) = get-put_fields (put_field aggregations r f) fs in
      let v = Dict.get-set r.values f (buckets_to_entries (Dict.get aggregations f)) x in
      let t = Dict.get-set r.truncated f (is_truncated (Dict.get aggregations f)) x in
      (ground (arith, p, v, ==-sound f x), ground (arith, q, t, ==-sound f x))

abbrev none_yet : FieldValuesBulk
none_yet = record { values = []; truncated = [] }

module _ (answer : BulkGroup → Dict Text BucketAggregation) (filters : List Filter) where
  put_groups-shared :
      (r : FieldValuesBulk) (us : List Text) (gs : List BulkGroup)
      → put_groups answer r (shared_group us filters ++ gs)
        ≡ put_groups answer
            (put_fields (answer (record { fields = us; effective_filters = filters })) r us)
            gs
  unfolding put_groups put_fields
  put_groups-shared r [] gs = refl
  put_groups-shared r (u ∷ us) gs = rw (lt→ltb 0 (suc (length us)) (omega arith)) refl

  module _ (x : Text) where
    get-put_own :
        (fs : List Text) (r : FieldValuesBulk)
        → (Dict.get (put_groups answer r (map (own_group filters) fs)).values x ≡ (
            if includes fs x
            then some (buckets_to_entries (Dict.get (answer (own_group filters x)) x))
            else Dict.get r.values x))
          × (Dict.get (put_groups answer r (map (own_group filters) fs)).truncated x ≡ (
              if includes fs x
              then some (is_truncated (Dict.get (answer (own_group filters x)) x))
              else Dict.get r.truncated x))
    unfolding put_groups
    get-put_own [] r = (refl, refl)
    get-put_own (f ∷ fs) r =
        let (p, t) = get-put_own fs (put_fields (answer (own_group filters f)) r (f ∷ [])) in
        let (v, u) = get-put_fields (answer (own_group filters f)) x r (f ∷ []) in
        (ground (arith, p, v, ==-sound f x), ground (arith, t, u, ==-sound f x))

-- The fields that are aggregated in the search for a field.
pub fields_with : List Text → List Filter → Text → List Text
fields_with fields filters x =
    if is_filtered filters x
    then x ∷ []
    else filter (λ f. not (is_filtered filters f)) (unique fields)

length-includes : (ts : List Text) (x : Text) → includes ts x ≡ true → 0 < length ts
length-includes [] x h = cc
length-includes (t ∷ ts) x h = omega arith

length-fields_with-le :
    (fields : List Text) (filters : List Filter) (x : Text)
    → includes fields x ≡ true
    → length (fields_with fields filters x) ≤ length (unique fields)
unfolding fields_with
length-fields_with-le fields filters x h = elim (Bool-cases (is_filtered filters x)) [
  | inl e ↦ rw e (length-includes (unique fields) x (includes-unique fields x ∙ h))
  | inr e ↦ rw e (length-filter-le (λ f. not (is_filtered filters f)) (unique fields))
]

shares : (n k limit total : ℕ) → k ≤ n → min limit (total / n) * k ≤ total
shares n k limit total le =
    let below : min limit (total / n) ≤ total / n = omega arith in
    omega (
      arith,
      mul-le-mul_right k below,
      mul-le-mul_left (total / n) le,
      div-add-mod total n,
      mul_comm n (total / n),
    )

bulk_size-le :
    (fields : List Text) (limit k : ℕ)
    → 0 < length (unique fields)
    → k ≤ length (unique fields)
    → bulk_size fields limit * k ≤ field_values_max
unfolding bulk_size
bulk_size-le fields limit k pos le = elim (Bool-cases (length (unique fields) == 0)) [
  | inl e ↦ absurd (ground (arith, e, pos))
  | inr e ↦ rw e (shares (length (unique fields)) k limit field_values_max le)
]

abbrev group_of : List Text → List Filter → Text → BulkGroup
group_of fields filters x = record {
  fields = fields_with fields filters x;
  effective_filters = without x filters;
}

groups-answer :
    (answer : BulkGroup → Dict Text BucketAggregation) (fields : List Text) (filters : List Filter)
    (x : Text)
    → let r = put_groups answer none_yet (group_fields_for_bulk fields filters) in
      let agg = Dict.get (answer (group_of fields filters x)) x in
      (Dict.get r.values x ≡ (if includes fields x then some (buckets_to_entries agg) else none))
      × (Dict.get r.truncated x ≡ (if includes fields x then some (is_truncated agg) else none))
unfolding group_fields_for_bulk fields_with Dict.get
groups-answer answer fields filters x =
    let us = filter (λ f. not (is_filtered filters f)) (unique fields) in
    let fs = filter (is_filtered filters) (unique fields) in
    let shared : BulkGroup = record { fields = us; effective_filters = filters } in
    let (v, t) = get-put_own answer filters x fs (put_fields (answer shared) none_yet us) in
    let (w, u) = get-put_fields (answer shared) x none_yet us in
    let in_us = includes-filter (λ f. not (is_filtered filters f)) (unique fields) x in
    let in_fs = includes-filter (is_filtered filters) (unique fields) x in
    let all = includes-unique fields x in
    rw
      (
        put_groups-shared answer filters none_yet us (map (own_group filters) fs),
        v,
        t,
        w,
        u,
        in_us,
        in_fs,
        all,
      )
      (elim (Bool-cases (is_filtered filters x)) [
        | inl e ↦ rw e (ground arith, ground arith)
        | inr e ↦ rw (e, without-unfiltered x filters e) (ground arith, ground arith)
      ])

-- A request for the values of many fields: each field of the request has what the backend says in one search, under the
-- query with all the filters but the field's own, and no other field has anything. All the buckets that this search
-- asks for together are within the backend's limit.
pub field_values_bulk-answers :
    (search : Search) (fields : List Text) (q : Text) (filters : List Filter) (limit : ℕ) (x : Text)
    → let r = field_values_bulk search fields q filters limit in
      let size = bulk_size fields limit in
      let agg =
        Dict.get
          (search (compose_query q (without x filters)) (fields_with fields filters x) size)
          x in
      (Dict.get r.values x ≡ (if includes fields x then some (buckets_to_entries agg) else none))
      × (Dict.get r.truncated x ≡ (if includes fields x then some (is_truncated agg) else none))
      × (includes fields x ≡ true → size * length (fields_with fields filters x) ≤ field_values_max)
unfolding field_values_bulk answer_of
field_values_bulk-answers search fields q filters limit x =
    let (v, t) = groups-answer (answer_of search q (bulk_size fields limit)) fields filters x in
    (
      v,
      t,
      λ h.
          bulk_size-le fields limit (length (fields_with fields filters x))
            (length-includes (unique fields) x (includes-unique fields x ∙ h))
            (length-fields_with-le fields filters x h),
    )
