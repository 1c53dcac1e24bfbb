-- ===== src/Trace/Databases/Counted.antt =====
-- The database calls that the targets count.
use rootprint.Common.{
  ℕ, suc, ◌+◌, Text, text_eq, ◌≡◌, refl, ap, ◌∙◌, Bool, Option, none, some, List, [], ◌∷◌, filter,
  length, arith, map,
}
use rootprint.Common.Dict
use rootprint.Common.Dict.{Dict}
use rootprint.Common.Sort.{insert, sort, descending}
use rootprint.Trace.{TraceSpan}
use rootprint.Trace.Databases.{
  DbTarget, DbMaps, is_db_span, DbQuery, TargetView, target_key, query_key, grown_target,
  open_target, view_of, add_call, db_maps, no_calls, db_rollups,
}

-- The calls that the targets count, all together.
pub calls_of : Dict Text DbTarget → ℕ
calls_of [] = 0
calls_of ((k, t) ∷ targets) = t.count + calls_of targets

abbrev count_of : Option DbTarget → ℕ
count_of none = 0
count_of (some t) = t.count

calls_of-set :
    (targets : Dict Text DbTarget) (k : Text) (t : DbTarget)
    → calls_of (Dict.set targets k t) + count_of (Dict.get targets k) ≡ calls_of targets + t.count
unfolding calls_of Dict.set Dict.get
calls_of-set [] k t = omega arith
calls_of-set ((j, u) ∷ targets) k t = ground (arith, calls_of-set targets k t)

total_of : List DbTarget → ℕ
total_of [] = 0
total_of (t ∷ ts) = t.count + total_of ts

-- The calls that a list of rollups counts.
pub views_of : List TargetView → ℕ
views_of [] = 0
views_of (v ∷ vs) = v.target.count + views_of vs

total_of-values : (targets : Dict Text DbTarget) → total_of (Dict.values targets) ≡ calls_of targets
unfolding total_of calls_of
total_of-values [] = refl
total_of-values ((k, t) ∷ targets) = ap (λ n. t.count + n) (total_of-values targets)

total_of-insert :
    (before : DbTarget → DbTarget → Bool) (t : DbTarget) (ts : List DbTarget)
    → total_of (insert before t ts) ≡ t.count + total_of ts
unfolding total_of insert
total_of-insert before t [] = refl
total_of-insert before t (u ∷ ts) = ground (arith, total_of-insert before t ts)

total_of-sort :
    (before : DbTarget → DbTarget → Bool) (ts : List DbTarget)
    → total_of (sort before ts) ≡ total_of ts
unfolding total_of sort
total_of-sort before [] = refl
total_of-sort before (t ∷ ts) =
    total_of-insert before t (sort before ts) ∙ ap (λ n. t.count + n) (total_of-sort before ts)

module _ (stringify : List Text → Text) where
  count-grown :
      (s : TraceSpan) (known : Option DbQuery) (o : Option DbTarget)
      → (grown_target stringify s known (open_target stringify s o)).count ≡ suc (count_of o)
  count-grown s known none = refl
  count-grown s known (some t) = refl

  calls_of-add_call :
      (m : DbMaps) (s : TraceSpan)
      → calls_of (add_call stringify m s).targets ≡ suc (calls_of m.targets)
  unfolding add_call
  calls_of-add_call m s =
      let k = target_key stringify s in
      let known = Dict.get m.queries (query_key stringify s) in
      let grown = grown_target stringify s known (open_target stringify s (Dict.get m.targets k)) in
      omega (arith, calls_of-set m.targets k grown, count-grown s known (Dict.get m.targets k))

  calls_of-db_maps :
      (m : DbMaps) (spans : List TraceSpan)
      → calls_of (db_maps stringify m spans).targets
        ≡ calls_of m.targets + length (filter is_db_span spans)
  unfolding db_maps
  calls_of-db_maps m [] = omega arith
  calls_of-db_maps m (s ∷ spans) = ground (
    arith,
    calls_of-db_maps m spans,
    calls_of-db_maps (add_call stringify m s) spans,
    calls_of-add_call m s,
  )

  views_of-map :
      (queries : Dict Text DbQuery) (ts : List DbTarget)
      → views_of (map (view_of stringify queries) ts) ≡ total_of ts
  unfolding views_of total_of
  views_of-map queries [] = refl
  views_of-map queries (t ∷ ts) = ap (λ n. t.count + n) (views_of-map queries ts)

  -- The targets that the panel lists count, all together, each span that calls a database once.
  pub db_rollups-counts :
      (spans : List TraceSpan)
      → views_of (db_rollups stringify spans) ≡ length (filter is_db_span spans)
  unfolding db_rollups calls_of
  db_rollups-counts spans =
      let targets = (db_maps stringify no_calls spans).targets in
      views_of-map (db_maps stringify no_calls spans).queries
        (sort (descending (λ t. t.total_micros)) (Dict.values targets))
      ∙ total_of-sort (descending (λ t. t.total_micros)) (Dict.values targets)
      ∙ total_of-values targets
      ∙ omega (arith, calls_of-db_maps no_calls spans)
