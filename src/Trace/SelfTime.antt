-- ===== src/Trace/SelfTime.antt =====
-- `selfMicros` of apps/web/src/lib/components/traces/span-stats.ts: the time of a span that none of
-- its children covers.
pub mod Count
use rootprint.Common.{
  ℕ, ◌+◌, ◌-◌, ◌<◌, ◌≤◌, min, max, ◌≡◌, refl, ap, sym, ◌∙◌, Bool, false, not, ◌&&◌, ◌||◌, List, [],
  ◌∷◌, map, arith, ltb, leb, if◌then◌else◌, filter, any, All, Bool-cases, inl, inr,
}
use rootprint.Common.Sort.{sort, ascending, Ascending, sort-Ascending, any-sort, All-sort}
use rootprint.Trace.{TraceSpan, SpanNode, span_of, children_of}
use Count.{
  count_below, count_below-ext, count_below-interval, count_below-or, count_below-not,
  count_below-none, count_below-shift,
}

record Interval : Type 0 where
  start : ℕ
  end : ℕ

abbrev end_of : TraceSpan → ℕ
end_of span = span.start_offset_micros + span.duration_micros

-- The child's interval, clamped to the span from `lo` to `hi`.
clamp_to : ℕ → ℕ → SpanNode → Interval
clamp_to lo hi child = record {
  start = max (span_of child).start_offset_micros lo;
  end = min (end_of (span_of child)) hi;
}

abbrev is_open : Interval → Bool
is_open i = ltb i.start i.end

clamped : ℕ → ℕ → List SpanNode → List Interval
unfolding clamp_to
clamped lo hi children = filter is_open (map (clamp_to lo hi) children)

-- The loop that merges overlapping intervals; its result is `covered` after the last addition.
merge : ℕ → ℕ → ℕ → List Interval → ℕ
merge covered start end [] = covered + (end - start)
merge covered start end (i ∷ rest) =
    let apart = merge (covered + (end - start)) i.start i.end rest in
    let longer = merge covered start i.end rest in
    let inside = merge covered start end rest in
    if ltb end i.start then apart else if ltb end i.end then longer else inside

uncovered : ℕ → List Interval → ℕ
unfolding merge
uncovered duration [] = duration
uncovered duration (i ∷ rest) = duration - merge 0 i.start i.end rest

unfoldable pub self_micros : SpanNode → ℕ
unfolding uncovered clamped sort
self_micros span =
    let lo = (span_of span).start_offset_micros in
    uncovered (span_of span).duration_micros
      (sort (ascending (λ i. i.start)) (clamped lo (end_of (span_of span)) (children_of span)))

abbrev within : ℕ → Interval → Bool
within t i = leb i.start t && ltb t i.end

within-before :
    (b t : ℕ) (is : List Interval) → All (λ i. b ≤ i.start) is → t < b → any (within t) is ≡ false
within-before b t [] h lt = refl
within-before b t (i ∷ is) (p, h) lt = ground (arith, within-before b t is h lt)

module _ (n : ℕ) where
  merge_lem :
      (covered start end : ℕ) (rest : List Interval)
      → end ≤ n
      → All (λ i. i.end ≤ n) rest
      → All (λ i. start ≤ i.start) rest
      → Ascending (λ i. i.start) rest
      → merge covered start end rest
        ≡ covered + count_below n (λ t. (leb start t && ltb t end) || any (within t) rest)
  unfolding merge
  merge_lem covered start end [] e _ _ _ =
      ap (λ c. covered + c)
        (sym (count_below-interval n start end e)
          ∙ count_below-ext n _ (λ t. (leb start t && ltb t end) || false) (λ t _. ground arith))
  merge_lem covered start end (i ∷ rest) e (ie, ends) (is, starts) (first, sorted) =
      elim (Bool-cases (ltb end i.start)) [
        | inl apart ↦
            let later =
              merge_lem (covered + (end - start)) i.start i.end rest ie ends first sorted in
            let split =
              count_below-or n (λ t. leb start t && ltb t end)
                (λ t. within t i || any (within t) rest)
                (λ t _ h. ground (arith, within-before i.start t rest first)) in
            rw apart (omega (arith, later, split, count_below-interval n start end e))
        | inr meet ↦ elim (Bool-cases (ltb end i.end)) [
          | inl longer ↦
              rw (meet, longer)
                (merge_lem covered start i.end rest ie ends starts sorted
                  ∙ ap (λ c. covered + c)
                      (count_below-ext n _
                        (λ t. (leb start t && ltb t end) || (within t i || any (within t) rest))
                        (λ t _. ground arith)))
          | inr inside ↦
              rw (meet, inside)
                (merge_lem covered start end rest e ends starts sorted
                  ∙ ap (λ c. covered + c)
                      (count_below-ext n _
                        (λ t. (leb start t && ltb t end) || (within t i || any (within t) rest))
                        (λ t _. ground arith)))
        ]
      ]

  uncovered_lem :
      (duration : ℕ) (is : List Interval)
      → All (λ i. i.end ≤ n) is
      → Ascending (λ i. i.start) is
      → uncovered duration is ≡ duration - count_below n (λ t. any (within t) is)
  unfolding uncovered
  uncovered_lem duration [] _ _ = omega (arith, count_below-none n (λ t. false) (λ t _. refl))
  uncovered_lem duration (i ∷ rest) (e, ends) (first, sorted) =
      ap (λ c. duration - c) (merge_lem 0 i.start i.end rest e ends first sorted ∙ omega arith)

-- Whether a child is running at an instant.
abbrev pub runs_at : ℕ → SpanNode → Bool
runs_at t child = leb (span_of child).start_offset_micros t && ltb t (end_of (span_of child))

module _ (lo hi : ℕ) where
  clamped-ends : (children : List SpanNode) → All (λ i. i.end ≤ hi) (clamped lo hi children)
  unfolding clamped
  clamped-ends [] = tt
  clamped-ends (c ∷ cs) = ground (arith, clamped-ends cs)

  clamped-before :
      (t : ℕ) (children : List SpanNode) → t < lo → any (within t) (clamped lo hi children) ≡ false
  unfolding clamped
  clamped-before t [] h = refl
  clamped-before t (c ∷ cs) h = ground (arith, clamped-before t cs h)

  clamped-runs_at :
      (t : ℕ) (children : List SpanNode)
      → lo ≤ t
      → t < hi
      → any (within t) (clamped lo hi children) ≡ any (runs_at t) children
  unfolding clamped
  clamped-runs_at t [] h k = refl
  clamped-runs_at t (c ∷ cs) h k = ground (arith, clamped-runs_at t cs h k)

-- The time of a span by its own definition: the instants of the span at which no child runs.
pub idle_micros : SpanNode → ℕ
idle_micros span =
    count_below (span_of span).duration_micros
      (λ t. not (any (runs_at ((span_of span).start_offset_micros + t)) (children_of span)))

-- Merging the sorted, clamped child intervals gives exactly the number of instants of the span at
-- which no child runs, however the children overlap, repeat or stick out of the span.
pub self_micros-eq-idle_micros : (span : SpanNode) → self_micros span ≡ idle_micros span
unfolding self_micros idle_micros
self_micros-eq-idle_micros span =
    let lo = (span_of span).start_offset_micros in
    let dur = (span_of span).duration_micros in
    let cs = clamped lo (lo + dur) (children_of span) in
    let sorted = sort (ascending (λ i. i.start)) cs in
    let total =
      uncovered_lem (lo + dur) dur sorted
        (All-sort (ascending (λ i. i.start)) (λ i. i.end ≤ lo + dur) cs
          (clamped-ends lo (lo + dur) (children_of span)))
        (sort-Ascending (λ i. i.start) cs) in
    let shifted =
      count_below-shift lo dur (λ t. any (within t) sorted)
        (λ t h.
          any-sort (ascending (λ i. i.start)) (within t) cs
          ∙ clamped-before lo (lo + dur) t (children_of span) h) in
    let same =
      count_below-ext dur (λ t. any (within (lo + t)) sorted)
        (λ t. any (runs_at (lo + t)) (children_of span))
        (λ t h.
          any-sort (ascending (λ i. i.start)) (within (lo + t)) cs
          ∙ clamped-runs_at lo (lo + dur) (lo + t) (children_of span) (omega arith)
              (omega arith)) in
    omega (
      arith,
      total,
      shifted,
      same,
      count_below-not dur (λ t. any (runs_at (lo + t)) (children_of span)),
    )
