-- ===== src/Trace/Model/Visited.antt =====
-- Counting the spans that a walk of `buildTraceModel` has visited.
use rootprint.Common.{
  ℕ, ◌≤◌, ◌<◌, ◌≡◌, refl, ap, ◌∙◌, subst, inl, inr, Text, text_eq, ◌==◌, ==-refl, ==-sound, ==-sym,
  Bool, Bool-cases, List, [], ◌∷◌, map, filter, includes, length, ltb, count, arith, All, All-imp,
}
use rootprint.Common.Sort.{insert, sort}
use rootprint.Trace.{TraceSpan, SpanNode, span_of}
use rootprint.Trace.Model.{is_unvisited}

abbrev pub id_of : TraceSpan → Text
id_of s = s.span_id

abbrev pub ids : List TraceSpan → List Text
ids ss = map id_of ss

abbrev pub node_id : SpanNode → Text
node_id n = (span_of n).span_id

pub includes-count : (xs : List Text) (a : Text) → includes xs a ≡ ltb 0 (count a xs)
includes-count [] a = ground arith
includes-count (x ∷ xs) a = ground (arith, includes-count xs a)

module _ (before : TraceSpan → TraceSpan → Bool) where
  count-insert :
      (x : Text) (s : TraceSpan) (ss : List TraceSpan)
      → count x (ids (insert before s ss)) ≡ count x (ids (s ∷ ss))
  unfolding insert
  count-insert x s [] = refl
  count-insert x s (t ∷ ss) = ground (arith, count-insert x s ss)

  pub count-sort :
      (x : Text) (ss : List TraceSpan) → count x (ids (sort before ss)) ≡ count x (ids ss)
  unfolding sort
  count-sort x [] = refl
  count-sort x (s ∷ ss) = count-insert x s (sort before ss) ∙ omega (arith, count-sort x ss)

pub count-filter-le :
    (p : TraceSpan → Bool) (x : Text) (ss : List TraceSpan)
    → count x (ids (filter p ss)) ≤ count x (ids ss)
count-filter-le p x [] = omega arith
count-filter-le p x (s ∷ ss) = ground (arith, count-filter-le p x ss)

pub All-zip {ℓ} :
    {A : Type ℓ} {P Q R : A → Type 0} (ss : List A)
    → ((s : A) → P s → Q s → R s)
    → All P ss
    → All Q ss
    → All R ss
All-zip [] f p q = tt
All-zip (s ∷ ss) f (p, ps) (q, qs) = (f s p q, All-zip ss f ps qs)

pub All-count : (ss : List TraceSpan) → All (λ s. 0 < count s.span_id (ids ss)) ss
All-count [] = tt
All-count (s ∷ ss) =
    (rw (==-refl s.span_id) (omega arith), All-imp ss (λ t h. omega (arith, h)) (All-count ss))

pub All-ids :
    (Q : Text → Type 0) (ss : List TraceSpan)
    → All (λ s. Q s.span_id) ss
    → (x : Text) → 0 < count x (ids ss)
    → Q x
All-ids Q [] h x p = absurd (omega arith)
All-ids Q (s ∷ ss) (q, h) x p = elim (Bool-cases (s.span_id == x)) [
  | inl e ↦ subst Q (==-sound s.span_id x e) q
  | inr e ↦ All-ids Q ss h x (ground (arith, p, e))
]

-- How many of the spans are not visited.
unfoldable pub unvisited : List Text → List TraceSpan → ℕ
unvisited visited ss = length (filter (is_unvisited visited) ss)

pub unvisited-le :
    (visited visited' : List Text) (ss : List TraceSpan)
    → ((x : Text) → count x visited ≤ count x visited')
    → unvisited visited' ss ≤ unvisited visited ss
unfolding unvisited
unvisited-le v v' [] h = omega arith
unvisited-le v v' (s ∷ ss) h = ground (
  arith,
  unvisited-le v v' ss h,
  h s.span_id,
  includes-count v s.span_id,
  includes-count v' s.span_id,
)

pub unvisited-lt :
    (x : Text) (visited : List Text) (ss : List TraceSpan)
    → count x visited ≡ 0
    → 0 < count x (ids ss)
    → unvisited (x ∷ visited) ss < unvisited visited ss
unfolding unvisited
unvisited-lt x v [] h p = absurd (omega arith)
unvisited-lt x v (s ∷ ss) h p = elim (Bool-cases (s.span_id == x)) [
  | inl e ↦ ground (
    arith,
    e,
    unvisited-le v (x ∷ v) ss (λ y. omega arith),
    includes-count v s.span_id,
    ap (λ a. count a v) (==-sound s.span_id x e),
    ==-sym s.span_id x,
  )
  | inr e ↦ ground (arith, e, unvisited-lt x v ss h (ground arith), ==-sym s.span_id x)
]
