-- ===== src/Trace/Fetch/Spans.antt =====
-- The spans that `getTrace` reads.
use rootprint.Common.{
  ℕ, ◌≤◌, ◌<◌, ◌≡◌, refl, sym, ap, ◌∙◌, subst, inl, inr, Text, codes, text_eq, ==-refl, true, false,
  Bool-cases, Option, none, some, List, [], ◌∷◌, ◌++◌, map, map-append, is_empty, includes, ltb→le,
  length, count, count-append, arith, All, All-append, All-imp,
}
use rootprint.Common.Dict
use rootprint.Common.Dict.{Dict}
use rootprint.Trace.{TraceSpan}
use rootprint.Trace.Attributes.{as_record, flatten_attributes}
use rootprint.Trace.Fetch.{
  RawSpanHit, SearchResponse, TraceResponse, Reader, as_text, to_micros, resource_for,
  resource_id_of, resource_key_of, read_span, read_at, read_hits, span_from, rebase, response_of,
  first_reader, get_trace,
}
use rootprint.Trace.Model.Visited.{ids, includes-count}
use rootprint.Trace.Model.Walk.{Once, Once-cons}

abbrev pub Known : Dict Text (Dict Text Text) → Text → Type 0
Known resources id = Dict.has resources id ≡ true

-- No span stands twice and each has its resource; one that is not truncated has every hit of the store.
pub record IsTrace (response : SearchResponse) (t : TraceResponse) : Type 0 where
  pub once : Once (ids t.spans)
  pub resources : All (λ s. Known t.resources s.resource_id) t.spans
  pub complete :
      t.truncated ≡ false
      → (response.num_hits ≤ length response.hits)
        × All (λ h. 0 < count (as_text h.span_id []) (ids t.spans)) response.hits

-- What holds of the variables of the loop after some of the hits.
record IsRead (r : Reader) : Type 0 where
  seen : (x : Text) → count x (ids r.spans) ≡ count x r.seen
  once : Once r.seen
  resources : All (λ s. Known r.resources s.resource_id) r.spans
  table : All (λ (e : Text × Text). Known r.resources e.1) r.resource_ids

module _ (stringify : Text → Dict Text Text → Text) (show : ℕ → Text) where
  -- The resource is known then, and what was known before still is.
  record Extends (r : Reader) (id : Text) (r' : Reader) : Type 0 where
    spans : r'.spans ≡ r.spans
    seen : r'.seen ≡ r.seen
    truncated : r'.truncated ≡ r.truncated
    known : Known r'.resources id
    keeps : (x : Text) → Known r.resources x → Known r'.resources x
    table : All (λ (e : Text × Text). Known r'.resources e.1) r'.resource_ids

  Known-set :
      (m : Dict Text (Dict Text Text)) (k : Text) (v : Dict Text Text) (x : Text)
      → Known m x
      → Known (Dict.set m k v) x
  Known-set m k v x h = Dict.has-set m k v x ∙ ground (arith, h)

  resource_for-Extends :
      (r : Reader) (key : Text) (attributes : Dict Text Text) (found : Option Text)
      → Dict.get r.resource_ids key ≡ found
      → All (λ (e : Text × Text). Known r.resources e.1) r.resource_ids
      → Extends r
          (resource_for stringify show found r key attributes).0
          (resource_for stringify show found r key attributes).1
  resource_for-Extends r key attributes (some id) e h = record {
    spans = refl;
    seen = refl;
    truncated = refl;
    known = Dict.All-get (λ (e : Text × Text). Known r.resources e.1) r.resource_ids key e h;
    keeps = λ x k. k;
    table = h;
  }
  resource_for-Extends r key attributes none e h =
      let id = (resource_for stringify show none r key attributes).0 in
      let new : Known (Dict.set r.resources id attributes) id =
        Dict.has-set r.resources id attributes id ∙ rw (==-refl id) refl in
      record {
        spans = refl;
        seen = refl;
        truncated = refl;
        known = new;
        keeps = Known-set r.resources id attributes;
        table =
            Dict.All-set (λ (e : Text × Text). Known (Dict.set r.resources id attributes) e.1)
              r.resource_ids key id new
              (All-imp r.resource_ids (λ e k. Known-set r.resources id attributes e.1 k) h);
      }

  -- What reading a hit with this id does.
  record Reads (id : Text) (r r' : Reader) : Type 0 where
    grows : (x : Text) → count x r.seen ≤ count x r'.seen
    takes : r'.truncated ≡ false → (r.truncated ≡ false) × (0 < count id r'.seen)

  add-IsRead :
      (r r' : Reader) (s : TraceSpan)
      → IsRead r
      → count s.span_id r.seen ≡ 0
      → Extends (record r { seen = s.span_id ∷ r.seen }) s.resource_id r'
      → IsRead (record r' { spans = r'.spans ++ s ∷ [] })
  add-IsRead r r' s h new e = record {
    seen = λ x.
        ap (count x) (map-append _ r'.spans (s ∷ []))
        ∙ count-append x (ids r'.spans) (ids (s ∷ []))
        ∙ omega (arith, ap (λ ss. count x (ids ss)) e.spans, ap (count x) e.seen, h.seen x);
    once = subst Once (sym e.seen) (Once-cons s.span_id r.seen new h.once);
    resources =
        All-append _ r'.spans (s ∷ [])
          (subst (All (λ s. Known r'.resources s.resource_id)) (sym e.spans)
            (All-imp r.spans (λ s k. e.keeps s.resource_id k) h.resources))
          (e.known, tt);
    table = e.table;
  }

  read_span-IsRead :
      (hit : RawSpanHit) (id : Text) (start : ℕ) (r : Reader)
      → IsRead r
      → count id r.seen ≡ 0
      → IsRead (read_span stringify show hit id start r)
        × Reads id r (read_span stringify show hit id start r)
  unfolding read_span span_from resource_id_of
  read_span-IsRead hit id start r h new =
      let service = as_text hit.service_name (codes "unknown") in
      let resource = flatten_attributes (as_record hit.resource_attributes) [] [] in
      let key = resource_key_of stringify show service resource in
      let seen_reader = record r { seen = id ∷ r.seen } in
      let e =
        resource_for-Extends seen_reader key resource (Dict.get r.resource_ids key) refl h.table in
      let to = resource_id_of stringify show seen_reader key resource in
      (
        add-IsRead r to.1 (span_from stringify show hit id start service to.0) h new e,
        record {
          grows = λ x. omega (arith, ap (count x) e.seen);
          takes = λ t. (sym e.truncated ∙ t, rw e.seen (rw (==-refl id) (omega arith)));
        },
      )

  read_at-IsRead :
      (hit : RawSpanHit) (id : Text) (start : Option ℕ) (r : Reader)
      → IsRead r
      → IsRead (read_at stringify show hit id start r)
        × Reads id r (read_at stringify show hit id start r)
  read_at-IsRead hit id none r h = (
    record { seen = h.seen; once = h.once; resources = h.resources; table = h.table },
    record { grows = λ x. omega arith; takes = λ t. cc },
  )
  read_at-IsRead hit id (some start) r h = elim (Bool-cases (is_empty id)) [
    | inl e ↦ rw e (
      record { seen = h.seen; once = h.once; resources = h.resources; table = h.table },
      record { grows = λ x. omega arith; takes = λ t. cc },
    )
    | inr e ↦ elim (Bool-cases (includes r.seen id)) [
      | inl old ↦
          rw (e, old)
            (
              h,
              record {
                grows = λ x. omega arith;
                takes = λ t. (t, ground (arith, old, includes-count r.seen id));
              },
            )
      | inr new ↦
          rw (e, new)
            (read_span-IsRead hit id start r h (ground (arith, new, includes-count r.seen id)))
    ]
  ]

  -- What reading the hits does.
  record ReadsAll (hits : List RawSpanHit) (r r' : Reader) : Type 0 where
    grows : (x : Text) → count x r.seen ≤ count x r'.seen
    takes :
        r'.truncated ≡ false
        → (r.truncated ≡ false) × All (λ h. 0 < count (as_text h.span_id []) r'.seen) hits

  read_hits-IsRead :
      (hits : List RawSpanHit) (r : Reader)
      → IsRead r
      → IsRead (read_hits stringify show hits r) × ReadsAll hits r (read_hits stringify show hits r)
  unfolding read_hits
  read_hits-IsRead [] r h = (h, record { grows = λ x. omega arith; takes = λ t. (t, tt) })
  read_hits-IsRead (hit ∷ hits) r h =
      let id = as_text hit.span_id [] in
      let (h', first) = read_at-IsRead hit id (to_micros hit.span_start_timestamp_nanos) r h in
      let next = read_at stringify show hit id (to_micros hit.span_start_timestamp_nanos) r in
      let (h'', others) = read_hits-IsRead hits next h' in
      (
        h'',
        record {
          grows = λ x. omega (arith, first.grows x, others.grows x);
          takes = λ t.
              let (before, listed) = others.takes t in
              let (kept, here) = first.takes before in
              (kept, (omega (arith, here, others.grows id), listed));
        },
      )

  first_reader-IsRead : (response : SearchResponse) → IsRead (first_reader stringify show response)
  first_reader-IsRead response = record {
    seen = λ x. refl;
    once = λ x. omega arith;
    resources = tt;
    table = tt;
  }

  ids-rebase :
      (start : ℕ) (ss : List TraceSpan) → ids (map (rebase stringify show start) ss) ≡ ids ss
  ids-rebase start [] = refl
  ids-rebase start (s ∷ ss) = ap (λ r. s.span_id ∷ r) (ids-rebase start ss)

  All-rebase :
      (P : Text → Type 0) (start : ℕ) (ss : List TraceSpan)
      → All (λ s. P s.resource_id) ss
      → All (λ s. P s.resource_id) (map (rebase stringify show start) ss)
  All-rebase P start [] h = tt
  All-rebase P start (s ∷ ss) (p, h) = (p, All-rebase P start ss h)

  response_of-IsTrace :
      (response : SearchResponse) (r : Reader) (ss : List TraceSpan)
      → ss ≡ r.spans
      → IsRead r
      → ReadsAll response.hits (first_reader stringify show response) r
      → IsTrace response (response_of stringify show r ss)
  response_of-IsTrace response r [] e h reads = record {
    once = λ x. omega arith;
    resources = tt;
    complete = λ t. cc;
  }
  response_of-IsTrace response r (s ∷ ss) e h reads =
      let start = s.start_offset_micros in
      let counts : (x : Text)
          → count x (ids (map (rebase stringify show start) (s ∷ ss))) ≡ count x r.seen =
        λ x. ap (count x) (ids-rebase start (s ∷ ss) ∙ ap ids e) ∙ h.seen x in
      record {
        once = λ x. omega (arith, counts x, h.once x);
        resources =
            All-rebase (Known r.resources) start (s ∷ ss)
              (subst (All (λ s. Known r.resources s.resource_id)) (sym e) h.resources);
        complete = λ t.
            let (all_hits, listed) = reads.takes t in
            (
              ltb→le (length response.hits) response.num_hits all_hits,
              All-imp response.hits (λ h k. omega (arith, counts (as_text h.span_id []), k)) listed,
            );
      }

  -- Of an answer with hits `getTrace` makes a trace in which no span id stands twice and each span's resource
  -- is known; if it is not marked as truncated, the answer has every hit of the store and each hit's span
  -- stands in the trace.
  pub get_trace-IsTrace :
      (response : SearchResponse)
      → is_empty response.hits ≡ false
      → IsTrace response (get_trace stringify show (some response))
  unfolding get_trace
  get_trace-IsTrace response some_hit =
      let (h, reads) =
        read_hits-IsRead response.hits (first_reader stringify show response)
          (first_reader-IsRead response) in
      rw some_hit (response_of-IsTrace response _ _ refl h reads)
