-- ===== src/Logs/Entries.antt =====
-- The buckets of a field as entries: `bucketsToEntries` of apps/api/src/services/log.service.ts.
use rootprint.Common.{
  ℕ, ◌+◌, ◌≤◌, ◌≡◌, refl, inl, inr, Text, text_eq, ◌==◌, ==-sound, false, Bool-cases, Option, none,
  List, [], ◌∷◌, if◌then◌else◌, is_empty, map, count, arith,
}
use mathlib.Core.Option
use rootprint.Common.Dict
use rootprint.Common.Dict.{Dict}
use rootprint.Common.Sort.{insert, sort, Descending, sort-Descending}
use rootprint.Logs.{
  Bucket, BucketAggregation, as_buckets, value_of, FieldValueEntry, add_bucket, add_buckets,
  to_entry, by_count, buckets_to_entries,
}

-- The documents of the buckets that go by `value`.
pub docs_of : Text → List Bucket → ℕ
docs_of value [] = 0
docs_of value (b ∷ bs) = (if value_of b == value then b.doc_count else 0) + docs_of value bs

-- The documents that the entries of `value` count.
pub counted : Text → List FieldValueEntry → ℕ
counted value [] = 0
counted value (e ∷ es) = (if e.value == value then e.count else 0) + counted value es

abbrev pub values : List FieldValueEntry → List Text
values es = map (λ e. e.value) es

counted-set :
    (v k : Text) (n : ℕ) (m : Dict Text ℕ)
    → counted v (map to_entry (Dict.set m k (Option.get_or (Dict.get m k) 0 + n)))
      ≡ counted v (map to_entry m) + (if k == v then n else 0)
unfolding counted Dict.set Dict.get
counted-set v k n [] = ground arith
counted-set v k n ((j, w) ∷ m) = elim (Bool-cases (j == k)) [
  | inl e ↦ rw (e, Dict.get, ==-sound j k e) (ground arith)
  | inr e ↦ rw (e, Dict.get) (omega (arith, counted-set v k n m))
]

counted-add_buckets :
    (v : Text) (m : Dict Text ℕ) (bs : List Bucket)
    → is_empty v ≡ false
    → counted v (map to_entry (add_buckets m bs)) ≡ counted v (map to_entry m) + docs_of v bs
unfolding add_buckets add_bucket docs_of
counted-add_buckets v m [] full = omega arith
counted-add_buckets v m (b ∷ bs) full = elim (Bool-cases (is_empty (value_of b))) [
  | inl e ↦ rw e (ground (arith, ==-sound (value_of b) v, counted-add_buckets v m bs full))
  | inr e ↦ rw e (
      omega (
        arith,
        counted-add_buckets v
            (Dict.set m (value_of b) (Option.get_or (Dict.get m (value_of b)) 0 + b.doc_count)) bs
            full,
        counted-set v (value_of b) b.doc_count m,
      ))
]

count-insert :
    (v : Text) (e : FieldValueEntry) (es : List FieldValueEntry)
    → (count v (values (insert by_count e es)) ≡ count v (values (e ∷ es)))
      × (counted v (insert by_count e es) ≡ counted v (e ∷ es))
unfolding insert counted
count-insert v e [] = (refl, refl)
count-insert v e (f ∷ es) =
    let (p, q) = count-insert v e es in (ground (arith, p), ground (arith, q))

count-sort :
    (v : Text) (es : List FieldValueEntry)
    → (count v (values (sort by_count es)) ≡ count v (values es))
      × (counted v (sort by_count es) ≡ counted v es)
unfolding sort counted
count-sort v [] = (refl, refl)
count-sort v (e ∷ es) =
    let (p, q) = count-insert v e (sort by_count es) in
    let (r, s) = count-sort v es in (omega (arith, p, r), omega (arith, q, s))

count-absent :
    (v : Text) (m : Dict Text ℕ) → Dict.get m v ≡ none → count v (values (map to_entry m)) ≡ 0
unfolding Dict.get
count-absent v [] h = refl
count-absent v ((j, w) ∷ m) h = ground (arith, count-absent v m)

count-NoDup : (v : Text) (m : Dict Text ℕ) → Dict.NoDup m → count v (values (map to_entry m)) ≤ 1
unfolding Dict.get
count-NoDup v [] h = omega arith
count-NoDup v ((j, w) ∷ m) (p, h) = elim (Bool-cases (j == v)) [
  | inl e ↦ rw e (omega (arith, count-absent v m (rw (==-sound j v e) at p)))
  | inr e ↦ rw e (omega (arith, count-NoDup v m h))
]

add_buckets-NoDup :
    (bs : List Bucket) (m : Dict Text ℕ) → Dict.NoDup m → Dict.NoDup (add_buckets m bs)
unfolding add_buckets add_bucket
add_buckets-NoDup [] m h = h
add_buckets-NoDup (b ∷ bs) m h = elim (Bool-cases (is_empty (value_of b))) [
  | inl e ↦ rw e (add_buckets-NoDup bs m h)
  | inr e ↦ rw e (add_buckets-NoDup bs _ (Dict.set-NoDup m (value_of b) _ h))
]

-- The entries of a field come by falling count, no value twice, and the count of a value that is not empty is the
-- number of documents in all the buckets that go by it, however many there are.
pub buckets_to_entries-counted :
    (agg : Option BucketAggregation)
    → Descending (λ e. e.count) (buckets_to_entries agg)
      × ((v : Text) → count v (values (buckets_to_entries agg)) ≤ 1)
      × ((v : Text)
          → is_empty v ≡ false
          → counted v (buckets_to_entries agg) ≡ docs_of v (as_buckets agg))
unfolding buckets_to_entries counted
buckets_to_entries-counted agg =
    let m = add_buckets [] (as_buckets agg) in
    (
      sort-Descending (λ e. e.count) (map to_entry m),
      λ v. omega (
        arith,
        (count-sort v (map to_entry m)).0,
        count-NoDup v m (add_buckets-NoDup (as_buckets agg) [] tt),
      ),
      λ v full. omega (
        arith,
        (count-sort v (map to_entry m)).1,
        counted-add_buckets v [] (as_buckets agg) full,
      ),
    )
