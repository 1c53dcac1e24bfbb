-- ===== src/Trace/Stats/FirstError.antt =====
-- `firstErrorSpan`.
use rootprint.Common.{
  ◌≤◌, ◌<◌, ◌≡◌, refl, true, false, Option, none, some, List, [], ◌∷◌, ◌++◌, ltb, All, All-append,
  arith, inl, inr, Bool-cases, append-nil, append_assoc,
}
use rootprint.Trace.{TraceSpan}
use rootprint.Trace.Stats.{first_error_step, first_error_from, first_error_span}

-- No failed span of the list starts before `f`.
abbrev NoneBefore : TraceSpan → List TraceSpan → Type 0
NoneBefore f spans =
    All (λ s. s.is_error ≡ true → f.start_offset_micros ≤ s.start_offset_micros) spans

-- Every failed span of the list starts after `f`.
abbrev AllAfter : TraceSpan → List TraceSpan → Type 0
AllAfter f spans =
    All (λ s. s.is_error ≡ true → f.start_offset_micros < s.start_offset_micros) spans

-- The failed span with the earliest start, the first one of several that tie.
pub record IsFirstError (f : TraceSpan) (spans : List TraceSpan) : Type 0 where
  pub earlier : List TraceSpan
  pub later : List TraceSpan
  pub listed : spans ≡ earlier ++ f ∷ later
  pub failed : f.is_error ≡ true
  pub before : AllAfter f earlier
  pub after : NoneBefore f later

-- What `first_error_from` answers for the spans read so far.
pub data Answer (spans : List TraceSpan) : Option TraceSpan → Type 0 where
  healthy : All (λ s. s.is_error ≡ false) spans → Answer spans none
  failing : {f : TraceSpan} → IsFirstError f spans → Answer spans (some f)

AllAfter-healthy :
    (f : TraceSpan) (spans : List TraceSpan)
    → All (λ s. s.is_error ≡ false) spans
    → AllAfter f spans
AllAfter-healthy f [] h = tt
AllAfter-healthy f (s ∷ spans) (p, h) = (λ q. cc, AllAfter-healthy f spans h)

AllAfter-earlier :
    (f s : TraceSpan) (earlier later : List TraceSpan)
    → s.start_offset_micros < f.start_offset_micros
    → AllAfter f earlier
    → NoneBefore f later
    → AllAfter s (earlier ++ f ∷ later)
AllAfter-earlier f s [] later lt _ after = (λ _. lt, go later after)
  where
    go : (later : List TraceSpan) → NoneBefore f later → AllAfter s later
    go [] h = tt
    go (t ∷ later) (p, h) = (λ e. let q = p e in omega arith, go later h)
AllAfter-earlier f s (t ∷ earlier) later lt (p, before) after =
    (λ e. let q = p e in omega arith, AllAfter-earlier f s earlier later lt before after)

IsFirstError-concat :
    {f : TraceSpan} {spans : List TraceSpan} (s : TraceSpan)
    → IsFirstError f spans
    → (s.is_error ≡ true → f.start_offset_micros ≤ s.start_offset_micros)
    → IsFirstError f (spans ++ s ∷ [])
IsFirstError-concat {f} s h le = record {
  earlier = h.earlier;
  later = h.later ++ s ∷ [];
  listed = rw h.listed (append_assoc h.earlier (f ∷ h.later) (s ∷ []));
  failed = h.failed;
  before = h.before;
  after = All-append _ h.later (s ∷ []) h.after (le, tt);
}

IsFirstError-new :
    (s : TraceSpan) (spans : List TraceSpan)
    → s.is_error ≡ true
    → AllAfter s spans
    → IsFirstError s (spans ++ s ∷ [])
IsFirstError-new s spans failed before = record {
  earlier = spans;
  later = [];
  listed = refl;
  failed = failed;
  before = before;
  after = tt;
}

first_error_step-Answer :
    (seen : List TraceSpan) (s : TraceSpan) {first : Option TraceSpan}
    → Answer seen first
    → Answer (seen ++ s ∷ []) (first_error_step first s)
unfolding first_error_step
first_error_step-Answer seen s (healthy h) = elim (Bool-cases s.is_error) [
  | inl e ↦ simp e (failing (IsFirstError-new s seen e (AllAfter-healthy s seen h)))
  | inr e ↦ simp e (healthy (All-append _ seen (s ∷ []) h (e, tt)))
]
first_error_step-Answer seen s (failing {f} h) = elim (Bool-cases s.is_error) [
  | inl e ↦ elim (Bool-cases (ltb s.start_offset_micros f.start_offset_micros)) [
    | inl lt ↦
        let after : AllAfter s seen =
          rw h.listed (AllAfter-earlier f s h.earlier h.later (ground arith) h.before h.after) in
        simp (e, lt) (failing (IsFirstError-new s seen e after))
    | inr ge ↦ simp (e, ge) (failing (IsFirstError-concat s h (λ _. ground arith)))
  ]
  | inr e ↦ simp e (failing (IsFirstError-concat s h (λ q. cc)))
]

first_error_from-Answer :
    (spans seen : List TraceSpan) {first : Option TraceSpan}
    → Answer seen first
    → Answer (seen ++ spans) (first_error_from first spans)
unfolding first_error_from
first_error_from-Answer [] seen a = rw (append-nil seen) a
first_error_from-Answer (s ∷ spans) seen a =
    rw (← append_assoc seen (s ∷ []) spans)
      (first_error_from-Answer spans (seen ++ s ∷ []) (first_error_step-Answer seen s a))

-- The answer is null exactly for a list without a failed span; otherwise it is the failed span with
-- the earliest start, and the first listed one of several that start together.
pub first_error_span-Answer : (spans : List TraceSpan) → Answer spans (first_error_span spans)
unfolding first_error_span
first_error_span-Answer spans = first_error_from-Answer spans [] (healthy tt)
