-- ===== src/Trace/Stats/Operations.antt =====
-- `topOperations`.
use rootprint.Common.{
  text_eq, ℕ, ◌+◌, ◌≤◌, ◌≡◌, refl, ◌∙◌, true, ◌&&◌, Option, none, some, List, [], ◌∷◌, ◌++◌, ltb,
  All, All-append, All-imp, arith, inl, inr, Bool-cases, append-nil, append_assoc, filter,
  filter-append, length, length-append, any, any-append, Text, ◌==◌, ==-sound, ==-refl, nat_beq,
  text_beq_iff, subst,
}
use mathlib.Core.Option.{some-injective}
use rootprint.Common.Dict
use rootprint.Common.Dict.{Dict}
use rootprint.Trace.{TraceSpan}
use rootprint.Trace.Stats.{
  OperationRollup, operation_key, open_operation, extend_operation, grow_operation, add_operation,
  operation_groups,
}

pub total_duration : List TraceSpan → ℕ
total_duration [] = 0
total_duration (s ∷ spans) = s.duration_micros + total_duration spans

total_duration-append :
    (xs ys : List TraceSpan) → total_duration (xs ++ ys) ≡ total_duration xs + total_duration ys
unfolding total_duration
total_duration-append [] ys = omega arith
total_duration-append (x ∷ xs) ys = omega (arith, total_duration-append xs ys)

-- The group sums up exactly the given spans, and its slowest span is one of them.
pub record IsRollup (g : OperationRollup) (spans : List TraceSpan) : Type 0 where
  pub counted : g.count ≡ length spans
  pub totalled : g.total_micros ≡ total_duration spans
  pub slowest : All (λ s. s.duration_micros ≤ g.slowest_micros) spans
  pub attained :
      any (λ s. s.span_id == g.slowest_span_id && nat_beq s.duration_micros g.slowest_micros) spans
      ≡ true

module _ (stringify : List Text → Text) where
  -- The spans of an operation.
  unfoldable pub of_key : Text → List TraceSpan → List TraceSpan
  of_key k spans = filter (λ s. operation_key stringify s == k) spans

  -- The row has the key of its own service and name.
  pub record IsNamed (k : Text) (g : OperationRollup) : Type 0 where
    pub keyed : g.key ≡ k
    pub named : stringify (g.service_name ∷ g.name ∷ []) ≡ k

  pub data Group (k : Text) (spans : List TraceSpan) : Option OperationRollup → Type 0 where
    absent : spans ≡ [] → Group k spans none
    present : {g : OperationRollup} → IsNamed k g → IsRollup g spans → Group k spans (some g)

  open_operation-IsRollup : (s : TraceSpan) → IsRollup (open_operation stringify s) (s ∷ [])
  unfolding open_operation total_duration
  open_operation-IsRollup s = record {
    counted = refl;
    totalled = omega arith;
    slowest = (omega arith, tt);
    attained = rw (==-refl s.span_id) (ground arith);
  }

  All-le_mono :
      {a b : ℕ} (spans : List TraceSpan)
      → a ≤ b
      → All (λ s. s.duration_micros ≤ a) spans
      → All (λ s. s.duration_micros ≤ b) spans
  All-le_mono spans h = All-imp spans (λ s p. omega arith)

  extend_operation-IsRollup :
      {g : OperationRollup} (s : TraceSpan) (spans : List TraceSpan)
      → IsRollup g spans
      → IsRollup (extend_operation stringify g s) (spans ++ s ∷ [])
  unfolding extend_operation total_duration
  extend_operation-IsRollup {g} s spans h =
      elim (Bool-cases (ltb g.slowest_micros s.duration_micros)) [
        | inl lt ↦ simp lt (record {
          counted = omega (arith, h.counted, length-append spans (s ∷ []));
          totalled = omega (arith, h.totalled, total_duration-append spans (s ∷ []));
          slowest =
              All-append _ spans (s ∷ []) (All-le_mono spans (ground arith) h.slowest)
                (omega arith, tt);
          attained = any-append _ spans (s ∷ []) ∙ ground (arith, ==-refl s.span_id);
        })
        | inr ge ↦ simp ge (record {
          counted = omega (arith, h.counted, length-append spans (s ∷ []));
          totalled = omega (arith, h.totalled, total_duration-append spans (s ∷ []));
          slowest = All-append _ spans (s ∷ []) h.slowest (ground arith, tt);
          attained = any-append _ spans (s ∷ []) ∙ ground (arith, h.attained);
        })
      ]

  open_operation-IsNamed :
      {k : Text} (s : TraceSpan)
      → operation_key stringify s ≡ k
      → IsNamed k (open_operation stringify s)
  unfolding open_operation
  open_operation-IsNamed s e = record { keyed = e; named = e }

  extend_operation-IsNamed :
      {k : Text} (g : OperationRollup) (s : TraceSpan)
      → IsNamed k g
      → IsNamed k (extend_operation stringify g s)
  unfolding extend_operation
  extend_operation-IsNamed g s h = elim (Bool-cases (ltb g.slowest_micros s.duration_micros)) [
    | inl lt ↦ simp lt (record { keyed = h.keyed; named = h.named })
    | inr ge ↦ simp ge (record { keyed = h.keyed; named = h.named })
  ]

  grow_operation-Group :
      {k : Text} {o : Option OperationRollup} (spans : List TraceSpan) (s : TraceSpan)
      → operation_key stringify s ≡ k
      → Group k spans o
      → Group k (spans ++ s ∷ []) (some (grow_operation stringify o s))
  unfolding grow_operation
  grow_operation-Group spans s same (absent e) =
      rw e (present (open_operation-IsNamed s same) (open_operation-IsRollup s))
  grow_operation-Group spans s same (present {g = g} n h) =
      present (extend_operation-IsNamed g s n) (extend_operation-IsRollup s spans h)

  add_operation-Group :
      (groups : Dict Text OperationRollup) (seen : List TraceSpan) (s : TraceSpan)
      → ((k : Text) → Group k (of_key k seen) (Dict.get groups k))
      → (k : Text)
      → Group k (of_key k (seen ++ s ∷ [])) (Dict.get (add_operation stringify groups s) k)
  unfolding add_operation of_key
  add_operation-Group groups seen s h k =
      rw (filter-append (λ t. operation_key stringify t == k) seen (s ∷ []))
        elim (Bool-cases (operation_key stringify s == k)) [
          | inl same ↦
              let e = ==-sound (operation_key stringify s) k same in
              rw same (simp (e, Dict.get-set_self) (grow_operation-Group (of_key k seen) s e (h k)))
          | inr other ↦
              simp (other, append-nil)
                (rw
                  (Dict.get-set_ne groups _
                    (λ (e : operation_key stringify s ≡ k). cc (other, (text_beq_iff _ _).1 e)))
                  (h k))
        ]

  -- Each operation has a rollup of exactly its spans, and a key without spans has none.
  operation_groups-Group :
      (spans seen : List TraceSpan) (groups : Dict Text OperationRollup)
      → ((k : Text) → Group k (of_key k seen) (Dict.get groups k))
      → (k : Text)
      → Group k (of_key k (seen ++ spans)) (Dict.get (operation_groups stringify groups spans) k)
  unfolding operation_groups
  operation_groups-Group [] seen groups h k = rw (append-nil seen) (h k)
  operation_groups-Group (s ∷ spans) seen groups h k = rw (← append_assoc seen (s ∷ []) spans) (
      operation_groups-Group spans (seen ++ s ∷ []) (add_operation stringify groups s)
        (add_operation-Group groups seen s h) k)

  operation_groups-NoDup :
      (spans : List TraceSpan) (groups : Dict Text OperationRollup)
      → Dict.NoDup groups
      → Dict.NoDup (operation_groups stringify groups spans)
  unfolding operation_groups add_operation
  operation_groups-NoDup [] groups h = h
  operation_groups-NoDup (s ∷ spans) groups h =
      operation_groups-NoDup spans (add_operation stringify groups s) (Dict.set-NoDup groups _ _ h)

  Group-some :
      {k : Text} {o : Option OperationRollup} {g : OperationRollup} (spans : List TraceSpan)
      → o ≡ some g
      → Group k spans o
      → IsNamed k g × IsRollup g spans
  Group-some spans e (absent _) = cc
  Group-some {k} {o} {g} spans e (present {g = g'} n h) =
      subst (λ x. IsNamed k x × IsRollup x spans) (some-injective g' g e) (n, h)

  pub Group-none :
      {k : Text} {o : Option OperationRollup} (spans : List TraceSpan)
      → o ≡ none
      → Group k spans o
      → spans ≡ []
  Group-none spans e (absent h) = h
  Group-none spans e (present n h) = cc

  unfoldable pub groups_of : List TraceSpan → Dict Text OperationRollup
  groups_of spans = operation_groups stringify [] spans

  pub groups_of-Group :
      (spans : List TraceSpan) (k : Text) → Group k (of_key k spans) (Dict.get (groups_of spans) k)
  unfolding groups_of Dict.get
  groups_of-Group spans = operation_groups-Group spans [] [] (λ k. unfold of_key in absent refl)

  pub groups_of-NoDup : (spans : List TraceSpan) → Dict.NoDup (groups_of spans)
  unfolding groups_of
  groups_of-NoDup spans = operation_groups-NoDup spans [] tt

  pub groups_of-entries :
      (spans : List TraceSpan)
      → All (λ x. IsNamed x.0 x.1 × IsRollup x.1 (of_key x.0 spans)) (groups_of spans)
  groups_of-entries spans =
      All-imp (groups_of spans) (λ x found. Group-some _ found (groups_of-Group spans x.0))
        (Dict.NoDup-get (groups_of spans) (groups_of-NoDup spans))
