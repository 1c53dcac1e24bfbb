-- ===== src/Search/Requests/Shown.antt =====
-- The rows on screen, whatever the order in which requests are sent, answered, aborted or fail.
use rootprint.Common.{
  ℕ, Text, nat_eq, ◌≡◌, refl, sym, ap, ◌∙◌, subst, Bool, true, false, Bool-cases, inl, inr, Option,
  none, some, List, [], ◌∷◌, ◌++◌, append_assoc, length, take, drop, take-drop, drop-append,
  drop-short, All-remove, arith, All, All-append,
}
use rootprint.Url.{SortDirection}
use rootprint.Search.Requests.{
  SearchInput, HistogramInput, batch_size, SearchStore, SearchResult, Hits, Request, initial, tick,
  run_search, run_histogram, maybe_load_more, load_page, first_page, next_page, buckets, is_live,
}
use rootprint.Search.Requests.Settle.{
  on_result, on_histogram, on_failure, new_hits, more_hits, next_input,
}

module _ {Hit Sample : Type 0} (sample_of : List Hit → Sample)
    (search : SearchInput → SearchResult Hit Sample sample_of) (rows : SearchInput → List Hit) where
  -- The backend answers a search with one page of its rows.
  pub record BackendLaws : Type 0 where
    pub same_rows : (input : SearchInput) (n : ℕ) → rows (record input { offset = n }) ≡ rows input
    pub page :
        (input : SearchInput)
        → (search input).raw_hits ≡ take input.limit (drop input.offset (rows input))

  abbrev Store : Type 0
  Store = SearchStore Hit Sample sample_of

  abbrev Requested : Type 0
  Requested = Request Hit Sample sample_of

  abbrev input_of : Requested → SearchInput → SearchInput
  input_of (first_page signal input refreshes) other = input
  input_of (next_page signal hits) other = next_input Hit Sample sample_of hits
  input_of (buckets signal input refreshes) other = other

  -- The runs of the page. Any request in flight may be the next to be answered or to fail.
  pub data Reachable : Store → List Requested → Type 0 where
    start : Reachable (initial Hit Sample sample_of) []
    searched :
        {s : Store} {rs : List Requested} (input : Option HistogramInput) (d : SortDirection)
        → Reachable s rs
        → Reachable
            (run_search Hit Sample sample_of input d s).1
            ((run_search Hit Sample sample_of input d s).0 ++ rs)
    counted :
        {s : Store} {rs : List Requested} (input : Option HistogramInput)
        → Reachable s rs
        → Reachable
            (run_histogram Hit Sample sample_of input s).1
            ((run_histogram Hit Sample sample_of input s).0 ++ rs)
    scrolled :
        {s : Store} {rs : List Requested}
        → Reachable s rs
        → Reachable
            (maybe_load_more Hit Sample sample_of s).1
            ((maybe_load_more Hit Sample sample_of s).0 ++ rs)
    ticked :
        {s : Store} {rs : List Requested} (in_view : Bool)
        → Reachable s rs
        → Reachable (tick Hit Sample sample_of in_view s) rs
    answered :
        {s : Store} (before : List Requested) (r : Requested) (later : List Requested)
        (other : SearchInput)
        → Reachable s (before ++ r ∷ later)
        → Reachable
            (on_result Hit Sample sample_of r (search (input_of r other)) s)
            (before ++ later)
    drawn :
        {s : Store} (before : List Requested) (signal : ℕ) (input : HistogramInput)
        (refreshes : Bool) (later : List Requested) (total : ℕ)
        → Reachable s (before ++ buckets signal input refreshes ∷ later)
        → Reachable
            (on_histogram Hit Sample sample_of (buckets signal input refreshes) total s)
            (before ++ later)
    failed :
        {s : Store} (before : List Requested) (r : Requested) (later : List Requested)
        (message : Text)
        → Reachable s (before ++ r ∷ later)
        → Reachable (on_failure Hit Sample sample_of r message s) (before ++ later)

  -- The rows are the first ones of the answer to their own input, and all of them where the last page
  -- was not full.
  pub record IsShown (h : Hits Hit Sample sample_of) : Type 0 where
    pub limited : h.input.limit ≡ batch_size
    pub rest : List Hit
    pub first_rows : h.raw_hits ++ rest ≡ rows h.input
    pub complete : h.last_page_full ≡ false → rest ≡ []

  abbrev pub AreShown : Option (Hits Hit Sample sample_of) → Type 0
  AreShown none = Unit
  AreShown (some h) = IsShown h

  abbrev IsSane : Requested → Type 0
  IsSane (first_page signal input refreshes) = (input.limit ≡ batch_size) × (input.offset ≡ 0)
  IsSane (next_page signal hits) = IsShown hits
  IsSane (buckets signal input refreshes) = Unit

  new_hits-IsShown :
      (input : SearchInput)
      → BackendLaws
      → (input.limit ≡ batch_size) × (input.offset ≡ 0)
      → IsShown (new_hits Hit Sample sample_of input (search input))
  new_hits-IsShown input laws (limited, at_start) =
      let p : (search input).raw_hits ≡ take batch_size (rows input) =
        laws.page input
        ∙ ap (λ n. take n (drop input.offset (rows input))) limited
        ∙ ap (λ n. take batch_size (drop n (rows input))) at_start in
      record {
        limited = limited;
        rest = drop batch_size (rows input);
        first_rows = rw p (take-drop batch_size (rows input));
        complete = λ short. drop-short batch_size (rows input) (rw p at short);
      }

  more_hits-IsShown :
      (h : Hits Hit Sample sample_of)
      → BackendLaws
      → IsShown h
      → IsShown (more_hits Hit Sample sample_of h (search (next_input Hit Sample sample_of h)))
  more_hits-IsShown h laws shown =
      let n = length h.raw_hits in
      let p : (search (next_input Hit Sample sample_of h)).raw_hits ≡ take batch_size shown.rest =
        laws.page (next_input Hit Sample sample_of h)
        ∙ ap (λ k. take k (drop n (rows (record h.input { offset = n })))) shown.limited
        ∙ ap (λ xs. take batch_size (drop n xs)) (laws.same_rows h.input n ∙ sym shown.first_rows)
        ∙ ap (take batch_size) (drop-append h.raw_hits shown.rest) in
      record {
        limited = shown.limited;
        rest = drop batch_size shown.rest;
        first_rows = rw p (
            append_assoc h.raw_hits (take batch_size shown.rest) (drop batch_size shown.rest)
            ∙ ap (λ r. h.raw_hits ++ r) (take-drop batch_size shown.rest)
            ∙ shown.first_rows);
        complete = λ short. drop-short batch_size shown.rest (rw p at short);
      }

  run_search-Shown :
      (input : Option HistogramInput) (d : SortDirection) (s : Store)
      → AreShown s.hits
      → AreShown (run_search Hit Sample sample_of input d s).1.hits
        × All IsSane (run_search Hit Sample sample_of input d s).0
  unfolding run_search
  run_search-Shown none d s h = (h, tt)
  run_search-Shown (some input) d s h = (h, ((refl, refl), tt))

  run_histogram-Shown :
      (input : Option HistogramInput) (s : Store)
      → AreShown s.hits
      → AreShown (run_histogram Hit Sample sample_of input s).1.hits
        × All IsSane (run_histogram Hit Sample sample_of input s).0
  unfolding run_histogram
  run_histogram-Shown none s h = (h, tt)
  run_histogram-Shown (some input) s h = (h, (tt, tt))

  load_page-Shown :
      (s : Store) (o : Option (Hits Hit Sample sample_of)) (signal : Option ℕ)
      → AreShown o
      → AreShown s.hits
      → AreShown (load_page Hit Sample sample_of s o signal).1.hits
        × All IsSane (load_page Hit Sample sample_of s o signal).0
  unfolding load_page
  load_page-Shown s none signal shown h = (h, tt)
  load_page-Shown s (some hits) none shown h = (h, tt)
  load_page-Shown s (some hits) (some signal) shown h = ground arith

  maybe_load_more-Shown :
      (s : Store)
      → AreShown s.hits
      → AreShown (maybe_load_more Hit Sample sample_of s).1.hits
        × All IsSane (maybe_load_more Hit Sample sample_of s).0
  unfolding maybe_load_more
  maybe_load_more-Shown s h = load_page-Shown s s.hits s.search_signal h h

  on_result-Shown :
      (r : Requested) (other : SearchInput) (s : Store)
      → BackendLaws
      → IsSane r
      → AreShown s.hits
      → AreShown (on_result Hit Sample sample_of r (search (input_of r other)) s).hits
  unfolding on_result
  on_result-Shown (first_page signal input refreshes) other s laws sane h =
      elim (Bool-cases (is_live s.live signal)) [
        | inl e ↦ rw e (new_hits-IsShown input laws sane)
        | inr e ↦ rw e h
      ]
  on_result-Shown (next_page signal hits) other s laws sane h =
      elim (Bool-cases (is_live s.live signal)) [
        | inl e ↦ rw e (more_hits-IsShown hits laws sane)
        | inr e ↦ rw e h
      ]
  on_result-Shown (buckets signal input refreshes) other s laws sane h = h

  on_histogram-hits :
      (r : Requested) (total : ℕ) (s : Store)
      → (on_histogram Hit Sample sample_of r total s).hits ≡ s.hits
  unfolding on_histogram
  on_histogram-hits (first_page signal input refreshes) total s = refl
  on_histogram-hits (next_page signal hits) total s = refl
  on_histogram-hits (buckets signal input refreshes) total s = ground arith

  on_failure-Shown :
      (r : Requested) (message : Text) (s : Store)
      → AreShown s.hits
      → AreShown (on_failure Hit Sample sample_of r message s).hits
  unfolding on_failure
  on_failure-Shown (first_page signal input true) message s h = ground arith
  on_failure-Shown (first_page signal input false) message s h = ground arith
  on_failure-Shown (next_page signal hits) message s h = ground arith
  on_failure-Shown (buckets signal input refreshes) message s h = ground arith

  tick-hits : (in_view : Bool) (s : Store) → (tick Hit Sample sample_of in_view s).hits ≡ s.hits
  unfolding tick
  tick-hits in_view s = ground arith

  Reachable-Shown :
      {s : Store} {rs : List Requested}
      → BackendLaws
      → Reachable s rs
      → AreShown s.hits × All IsSane rs
  Reachable-Shown laws start = (tt, tt)
  Reachable-Shown laws (searched {s} {rs} input d r) =
      let (h, sane) = Reachable-Shown laws r in
      let (h', asked) = run_search-Shown input d s h in (h', All-append IsSane _ rs asked sane)
  Reachable-Shown laws (counted {s} {rs} input r) =
      let (h, sane) = Reachable-Shown laws r in
      let (h', asked) = run_histogram-Shown input s h in (h', All-append IsSane _ rs asked sane)
  Reachable-Shown laws (scrolled {s} {rs} r) =
      let (h, sane) = Reachable-Shown laws r in
      let (h', asked) = maybe_load_more-Shown s h in (h', All-append IsSane _ rs asked sane)
  Reachable-Shown laws (ticked {s} in_view r) =
      let (h, sane) = Reachable-Shown laws r in (subst AreShown (sym (tick-hits in_view s)) h, sane)
  Reachable-Shown laws (answered {s} before r later other run) =
      let (h, sane) = Reachable-Shown laws run in
      let (one, others) = All-remove IsSane before r later sane in
      (on_result-Shown r other s laws one h, others)
  Reachable-Shown laws (drawn {s} before signal input refreshes later total run) =
      let (h, sane) = Reachable-Shown laws run in
      let r = buckets signal input refreshes in
      (
        subst AreShown (sym (on_histogram-hits r total s)) h,
        (All-remove IsSane before r later sane).1,
      )
  Reachable-Shown laws (failed {s} before r later message run) =
      let (h, sane) = Reachable-Shown laws run in
      (on_failure-Shown r message s h, (All-remove IsSane before r later sane).1)

  -- Where the backend answers each search with one page of fixed rows, in every state that the
  -- page can reach the rows on screen are the first rows of the answer to the input they came
  -- with, without a gap or a repeated page, and all of them once a page is not full.
  pub Reachable-IsShown :
      {s : Store} {rs : List Requested} (h : Hits Hit Sample sample_of)
      → BackendLaws
      → Reachable s rs
      → s.hits ≡ some h
      → IsShown h
  Reachable-IsShown h laws r e = subst AreShown e (Reachable-Shown laws r).0
