-- ===== src/Trace/Model/Table.antt =====
-- The map `byId` of `buildTraceModel`.
use rootprint.Common.{
  ◌≡◌, refl, sym, ap, ◌∙◌, inl, inr, Text, text_eq, ◌==◌, ==-sound, ◌||◌, Bool-cases, some, List,
  [], ◌∷◌, if◌then◌else◌, includes, count, arith, All,
}
use rootprint.Common.Dict
use rootprint.Common.Dict.{Dict}
use rootprint.Trace.{TraceSpan}
use rootprint.Trace.Model.{by_id}
use rootprint.Trace.Model.Visited.{ids, All-zip, All-count}
use rootprint.Trace.Model.Walk.{IsNode}

pub record IsKeyed (m : Dict Text TraceSpan) : Type 0 where
  pub apart : Dict.NoDup m
  pub own : All (λ (x : Text × TraceSpan). x.0 ≡ x.1.span_id) m

pub by_id-IsKeyed :
    (m : Dict Text TraceSpan) (spans : List TraceSpan) → IsKeyed m → IsKeyed (by_id m spans)
unfolding by_id
by_id-IsKeyed m [] h = h
by_id-IsKeyed m (s ∷ spans) h = by_id-IsKeyed (Dict.set m s.span_id s) spans (record {
  apart = Dict.set-NoDup m s.span_id s h.apart;
  own = Dict.All-set (λ (x : Text × TraceSpan). x.0 ≡ x.1.span_id) m s.span_id s refl h.own;
})

pub IsKeyed-IsNode : (m : Dict Text TraceSpan) → IsKeyed m → All (IsNode m) (Dict.values m)
IsKeyed-IsNode m h =
    let found : All (λ s. Dict.get m s.span_id ≡ some s) (Dict.values m) =
      Dict.All-values (λ s. Dict.get m s.span_id ≡ some s) m
        (All-zip {A = Text × TraceSpan} {P = λ x. Dict.get m x.0 ≡ some x.1}
          {Q = λ x. x.0 ≡ x.1.span_id} {R = λ x. Dict.get m x.1.span_id ≡ some x.1} m
          (λ x g k. ap (Dict.get m) (sym k) ∙ g) (Dict.NoDup-get m h.apart) h.own) in
    All-zip (Dict.values m) (λ s f l. record { found = f; listed = l }) found
      (All-count (Dict.values m))

pub has-by_id :
    (m : Dict Text TraceSpan) (spans : List TraceSpan) (x : Text)
    → Dict.has (by_id m spans) x ≡ (Dict.has m x || includes (ids spans) x)
unfolding by_id
has-by_id m [] x = ground arith
has-by_id m (s ∷ spans) x =
    ground (arith, has-by_id (Dict.set m s.span_id s) spans x, Dict.has-set m s.span_id s x)

pub count-IsKeyed :
    (m : Dict Text TraceSpan) (x : Text)
    → Dict.NoDup m
    → All (λ (x : Text × TraceSpan). x.0 ≡ x.1.span_id) m
    → count x (ids (Dict.values m)) ≡ (if Dict.has m x then 1 else 0)
unfolding Dict.get
count-IsKeyed [] x h k = refl
count-IsKeyed ((j, s) ∷ m) x (h, hs) (k, ks) = elim (Bool-cases (j == x)) [
  | inl p ↦ ground (
    arith,
    p,
    ap (λ a. a == x) k,
    count-IsKeyed m x hs ks,
    ap (λ a. Dict.has m a) (==-sound j x p),
    h,
  )
  | inr p ↦ ground (arith, p, ap (λ a. a == x) k, count-IsKeyed m x hs ks)
]
