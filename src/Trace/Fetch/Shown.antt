-- ===== src/Trace/Fetch/Shown.antt =====
-- The server's trace as the page shows it: `getTrace` of apps/api/src/services/trace.service.ts, then
-- `buildTraceModel` of apps/web/src/lib/components/traces/trace-model.ts.
use rootprint.Common.{
  ℕ, ◌≡◌, ◌∙◌, inl, inr, Text, text_eq, Bool, Bool-cases, Option, none, some, is_empty, count,
  arith,
}
use rootprint.Common.Dict.{Dict}
use rootprint.Trace.Fetch.{SearchResponse, get_trace}
use rootprint.Trace.Fetch.Spans.{get_trace-IsTrace}
use rootprint.Trace.Model.{TraceModel, build_trace_model}
use rootprint.Trace.Model.Visited.{ids, includes-count}
use rootprint.Trace.Model.Walk.{Once}
use rootprint.Trace.Model.Once.{ids_of, build_trace_model-Once}

module _ (stringify : Text → Dict Text Text → Text) (show : ℕ → Text)
    (before_name : Text → Text → Bool) where
  get_trace-Once :
      (response : Option SearchResponse) → Once (ids (get_trace stringify show response).spans)
  get_trace-Once none = unfold get_trace in λ x. omega arith
  get_trace-Once (some r) = elim (Bool-cases (is_empty r.hits)) [
    | inl e ↦ unfold get_trace in rw e (λ x. omega arith)
    | inr e ↦ (get_trace-IsTrace stringify show r e).once
  ]

  -- The tree that the page builds from any answer of `getTrace`, a missing store or no hits included, comes
  -- to be, and has each of the trace's spans exactly once and no other.
  pub build_trace_model-get_trace :
      (response : Option SearchResponse)
      → (m : TraceModel) × (build_trace_model before_name (get_trace stringify show response).spans
          ≡ some m)
        × ((x : Text)
            → count x (ids_of m) ≡ count x (ids (get_trace stringify show response).spans))
  build_trace_model-get_trace response =
      let spans = (get_trace stringify show response).spans in
      let (m, e, once, linked) = build_trace_model-Once before_name spans in
      (m, e, λ x. once x ∙ ground (arith, includes-count (ids spans) x, get_trace-Once response x))
