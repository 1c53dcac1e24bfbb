-- ===== src/Search/Requests/Status.antt =====
-- The status of the search and the requests in flight.
use rootprint.Common.{
  ℕ, Text, nat_eq, ◌≡◌, refl, sym, ap, ◌∙◌, Bool, true, false, Bool-cases, inl, inr, Option, none,
  some, List, ◌∷◌, ◌++◌, arith, any, any-append, ==-refl,
}
use rootprint.Url.{SortDirection}
use rootprint.Search.Requests.{
  SearchInput, HistogramInput, SearchStore, SearchResult, Hits, Request, tick, run_search,
  run_histogram, maybe_load_more, load_page, is_live, is_idle, first_page, next_page, buckets,
}
use rootprint.Search.Requests.Settle.{on_result, on_histogram, on_failure}
use rootprint.Search.Requests.Shown.{
  Reachable, start, searched, counted, scrolled, ticked, answered, drawn, failed,
}

module _ {Hit Sample : Type 0} (sample_of : List Hit → Sample)
    (search : SearchInput → SearchResult Hit Sample sample_of) (rows : SearchInput → List Hit) where
  abbrev Store : Type 0
  Store = SearchStore Hit Sample sample_of

  abbrev Requested : Type 0
  Requested = Request Hit Sample sample_of

  -- The request whose answer or failure ends the search that runs.
  pub ends_search : Option ℕ → Requested → Bool
  ends_search live (first_page signal input refreshes) = is_live live signal
  ends_search live (next_page signal hits) = false
  ends_search live (buckets signal input refreshes) = false

  abbrev IsServed : Store → List Requested → Type 0
  IsServed s rs = is_idle s.hits_status ≡ false → any (ends_search s.live) rs ≡ true

  any-remove :
      (p : Requested → Bool) (before : List Requested) (r : Requested) (later : List Requested)
      → any p (before ++ r ∷ later) ≡ true
      → p r ≡ false
      → any p (before ++ later) ≡ true
  any-remove p before r later h e =
      any-append p before later ∙ ground (arith, e, any-append p before (r ∷ later), h)

  keeps :
      (s s' : Store) (rs : List Requested)
      → s'.hits_status ≡ s.hits_status
      → s'.live ≡ s.live
      → IsServed s rs
      → IsServed s' rs
  keeps s s' rs p q h busy = ap (λ l. any (ends_search l) rs) q ∙ h (sym (ap is_idle p) ∙ busy)

  without :
      (s : Store) (before : List Requested) (r : Requested) (later : List Requested)
      → ends_search s.live r ≡ false
      → IsServed s (before ++ r ∷ later)
      → IsServed s (before ++ later)
  without s before r later e h busy = any-remove (ends_search s.live) before r later (h busy) e

  run_search-IsServed :
      (input : Option HistogramInput) (d : SortDirection) (s : Store) (rs : List Requested)
      → IsServed
          (run_search Hit Sample sample_of input d s).1
          ((run_search Hit Sample sample_of input d s).0 ++ rs)
  unfolding run_search ends_search
  run_search-IsServed none d s rs h = cc
  run_search-IsServed (some input) d s rs h = rw (==-refl s.next_signal) refl

  run_histogram-IsServed :
      (input : Option HistogramInput) (s : Store) (rs : List Requested)
      → IsServed s rs
      → IsServed
          (run_histogram Hit Sample sample_of input s).1
          ((run_histogram Hit Sample sample_of input s).0 ++ rs)
  unfolding run_histogram ends_search
  run_histogram-IsServed none s rs h = h
  run_histogram-IsServed (some input) s rs h = h

  load_page-IsServed :
      (s : Store) (o : Option (Hits Hit Sample sample_of)) (signal : Option ℕ) (rs : List Requested)
      → IsServed s rs
      → IsServed
          (load_page Hit Sample sample_of s o signal).1
          ((load_page Hit Sample sample_of s o signal).0 ++ rs)
  unfolding load_page ends_search
  load_page-IsServed s none signal rs h = h
  load_page-IsServed s (some hits) none rs h = h
  load_page-IsServed s (some hits) (some signal) rs h = ground arith

  tick-IsServed :
      (in_view : Bool) (s : Store) (rs : List Requested)
      → IsServed s rs
      → IsServed (tick Hit Sample sample_of in_view s) rs
  unfolding tick
  tick-IsServed in_view s rs h =
      keeps s (tick Hit Sample sample_of in_view s) rs (ground arith) (ground arith) h

  on_result-IsServed :
      (before : List Requested) (r : Requested) (later : List Requested) (s : Store)
      (result : SearchResult Hit Sample sample_of)
      → IsServed s (before ++ r ∷ later)
      → IsServed (on_result Hit Sample sample_of r result s) (before ++ later)
  unfolding on_result ends_search
  on_result-IsServed before (first_page signal input refreshes) later s result h =
      elim (Bool-cases (is_live s.live signal)) [
        | inl e ↦ rw e (λ busy. cc)
        | inr e ↦ rw e (without s before (first_page signal input refreshes) later e h)
      ]
  on_result-IsServed before (next_page signal hits) later s result h =
      keeps s (on_result Hit Sample sample_of (next_page signal hits) result s) (before ++ later)
        (ground arith) (ground arith) (without s before (next_page signal hits) later refl h)
  on_result-IsServed before (buckets signal input refreshes) later s result h =
      without s before (buckets signal input refreshes) later refl h

  on_histogram-IsServed :
      (before : List Requested) (signal : ℕ) (input : HistogramInput) (refreshes : Bool)
      (later : List Requested) (s : Store) (total : ℕ)
      → IsServed s (before ++ buckets signal input refreshes ∷ later)
      → IsServed
          (on_histogram Hit Sample sample_of (buckets signal input refreshes) total s)
          (before ++ later)
  unfolding on_histogram ends_search
  on_histogram-IsServed before signal input refreshes later s total h =
      keeps s (on_histogram Hit Sample sample_of (buckets signal input refreshes) total s)
        (before ++ later) (ground arith) (ground arith) (without s before _ later refl h)

  on_failure-IsServed :
      (before : List Requested) (r : Requested) (later : List Requested) (s : Store)
      (message : Text)
      → IsServed s (before ++ r ∷ later)
      → IsServed (on_failure Hit Sample sample_of r message s) (before ++ later)
  unfolding on_failure ends_search
  on_failure-IsServed before (first_page signal input refreshes) later s message h =
      elim (Bool-cases (is_live s.live signal)) [
        | inl e ↦ rw e (λ busy. cc)
        | inr e ↦ rw e (without s before (first_page signal input refreshes) later e h)
      ]
  on_failure-IsServed before (next_page signal hits) later s message h =
      keeps s (on_failure Hit Sample sample_of (next_page signal hits) message s) (before ++ later)
        (ground arith) (ground arith) (without s before (next_page signal hits) later refl h)
  on_failure-IsServed before (buckets signal input refreshes) later s message h =
      keeps s (on_failure Hit Sample sample_of (buckets signal input refreshes) message s)
        (before ++ later) (ground arith) (ground arith)
        (without s before (buckets signal input refreshes) later refl h)

  -- While a search shows as running, a request is in flight whose answer or failure ends it: no order
  -- of answers, aborts, ticks and pages leaves the page busy with nothing to wait for.
  pub hits_status-served :
      {s : Store} {rs : List Requested}
      → Reachable sample_of search rows s rs
      → is_idle s.hits_status ≡ false
      → any (ends_search s.live) rs ≡ true
  unfolding maybe_load_more
  hits_status-served start busy = cc
  hits_status-served (searched {s} {rs} input d r) busy = run_search-IsServed input d s rs busy
  hits_status-served (counted {s} {rs} input r) busy =
      run_histogram-IsServed input s rs (hits_status-served r) busy
  hits_status-served (scrolled {s} {rs} r) busy =
      load_page-IsServed s s.hits s.search_signal rs (hits_status-served r) busy
  hits_status-served (ticked {s} {rs} in_view r) busy =
      tick-IsServed in_view s rs (hits_status-served r) busy
  hits_status-served (answered {s} before r later other run) busy =
      on_result-IsServed before r later s _ (hits_status-served run) busy
  hits_status-served (drawn {s} before signal input refreshes later total run) busy =
      on_histogram-IsServed before signal input refreshes later s total (hits_status-served run)
        busy
  hits_status-served (failed {s} before r later message run) busy =
      on_failure-IsServed before r later s message (hits_status-served run) busy
