-- ===== src/Search/Requests.antt =====
-- The requests of the log search: the effects of `setupAutoSearch` for the rows and the histogram,
-- `maybeLoadMore`, `listEnd` and `tick` in apps/web/src/lib/components/logs/search.svelte.ts. A run of an
-- effect and the settling of a request are steps on the store; an `AbortController` is a number, and
-- the one that is not aborted is `live`.
pub mod Settle
pub mod Shown
pub mod Status
use rootprint.Common.{
  ℕ, suc, Text, nat_eq, bool_eq, ◌==◌, Bool, true, false, not, ◌||◌, Option, none, some, List, [],
  ◌∷◌, if◌then◌else◌, is_empty, length, leb,
}
use rootprint.Url.{SortDirection}

pub record HistogramInput : Type 0 where
  pub index_id : Text
  pub query : Text
  pub start_ts : ℕ
  pub end_ts : ℕ

pub record SearchInput : Type 0 where
  pub index_id : Text
  pub query : Text
  pub start_ts : Option ℕ
  pub end_ts : Option ℕ
  pub sort_direction : SortDirection
  pub limit : ℕ
  pub offset : ℕ

pub data RequestStatus : Type 0 where
  idle fresh refresh : RequestStatus

pub data AutoRefreshState : Type 0 where
  on paused retrying : AutoRefreshState

pub data ListEnd : Type 0 where
  more end capped : ListEnd

abbrev pub is_idle : RequestStatus → Bool
is_idle idle = true
is_idle fresh = false
is_idle refresh = false

abbrev pub is_paused : AutoRefreshState → Bool
is_paused on = false
is_paused paused = true
is_paused retrying = false

abbrev pub is_more : ListEnd → Bool
is_more more = true
is_more end = false
is_more capped = false

abbrev pub is_some : {A : Type 0} → Option A → Bool
is_some none = false
is_some (some a) = true

abbrev pub is_live : Option ℕ → ℕ → Bool
is_live none signal = false
is_live (some s) signal = s == signal

pub batch_size : ℕ
batch_size = 200

pub max_offset : ℕ
max_offset = 10000

-- `Hit` is a document, `Sample` what `countFieldPaths` counts in a page of them.
module _ (Hit Sample : Type 0) (sample_of : List Hit → Sample) where
  pub record SearchResult : Type 0 where
    pub raw_hits : List Hit
    pub elapsed_time_micros : ℕ

  pub record Hits : Type 0 where
    pub raw_hits : List Hit
    pub elapsed_time_micros : ℕ
    pub input : SearchInput
    pub last_page_full : Bool
    pub sample : Sample

  pub data Request : Type 0 where
    first_page : (signal : ℕ) → (input : SearchInput) → (refreshes : Bool) → Request
    next_page : (signal : ℕ) → (hits : Hits) → Request
    buckets : (signal : ℕ) → (input : HistogramInput) → (refreshes : Bool) → Request

  -- `total` is the `totalDocCount` of the histogram.
  pub record SearchStore : Type 0 where
    pub hits : Option Hits
    pub hits_status : RequestStatus
    pub hits_error : Option Text
    pub total : Option ℕ
    pub histogram_status : RequestStatus
    pub histogram_error : Option Text
    pub loading_more : Bool
    pub ticks : ℕ
    pub search_tick : ℕ
    pub histogram_tick : ℕ
    pub in_view : Bool
    pub expanded_folds : List Text
    pub fresh_searches : ℕ
    pub next_signal : ℕ
    pub live : Option ℕ
    pub search_signal : Option ℕ
    pub histogram_live : Option ℕ

  abbrev pub initial : SearchStore
  initial = record {
    hits = none;
    hits_status = idle;
    hits_error = none;
    total = none;
    histogram_status = idle;
    histogram_error = none;
    loading_more = false;
    ticks = 0;
    search_tick = 0;
    histogram_tick = 0;
    in_view = true;
    expanded_folds = [];
    fresh_searches = 0;
    next_signal = 0;
    live = none;
    search_signal = none;
    histogram_live = none;
  }

  pub auto_refresh_state : SearchStore → AutoRefreshState
  auto_refresh_state s =
      if not s.in_view || not (is_empty s.expanded_folds)
      then paused
      else if is_some s.hits_error || is_some s.histogram_error
      then retrying
      else on

  pub tick : Bool → SearchStore → SearchStore
  unfolding auto_refresh_state
  tick in_view s =
      let s' = record s { in_view = in_view } in
      if is_paused (auto_refresh_state s')
        || not (is_idle s.hits_status)
        || not (is_idle s.histogram_status)
      then s'
      else record s' { ticks = suc s.ticks }

  abbrev pub status_of : Bool → RequestStatus
  status_of refreshes = if refreshes then refresh else fresh

  abbrev pub first_input : HistogramInput → SortDirection → SearchInput
  first_input input sort_direction = record {
    index_id = input.index_id;
    query = input.query;
    start_ts = some input.start_ts;
    end_ts = some input.end_ts;
    sort_direction = sort_direction;
    limit = batch_size;
    offset = 0;
  }

  -- A run of the search effect: the cleanup of the last run aborts its request.
  unfoldable pub run_search :
      Option HistogramInput → SortDirection → SearchStore → List Request × SearchStore
  run_search none sort_direction s = (
    [],
    record s { live = none; search_tick = s.ticks; hits_status = idle; loading_more = false },
  )
  run_search (some input) sort_direction s =
      let refreshes = not (s.ticks == s.search_tick) in
      (
        first_page s.next_signal (first_input input sort_direction) refreshes ∷ [],
        record s {
          live = some s.next_signal;
          search_signal = some s.next_signal;
          next_signal = suc s.next_signal;
          search_tick = s.ticks;
          hits_status = status_of refreshes;
          loading_more = false;
          hits_error = if refreshes then s.hits_error else none;
        },
      )

  -- A run of the histogram effect.
  pub run_histogram : Option HistogramInput → SearchStore → List Request × SearchStore
  run_histogram none s =
      ([], record s { histogram_live = none; histogram_tick = s.ticks; histogram_status = idle })
  run_histogram (some input) s =
      let refreshes = not (s.ticks == s.histogram_tick) in
      (
        buckets s.next_signal input refreshes ∷ [],
        record s {
          histogram_live = some s.next_signal;
          next_signal = suc s.next_signal;
          histogram_tick = s.ticks;
          histogram_status = status_of refreshes;
          histogram_error = if refreshes then s.histogram_error else none;
        },
      )

  pub list_end : SearchStore → ListEnd
  list_end s = elim s.hits [
    | none ↦ end
    | some hits ↦
        if elim s.total [ none ↦ false | some total ↦ leb total (length hits.raw_hits) ]
        then end
        else if leb max_offset (length hits.raw_hits)
        then capped
        else if hits.last_page_full
        then more
        else end
  ]

  -- `maybe_load_more` on what it reads first.
  pub load_page : SearchStore → Option Hits → Option ℕ → List Request × SearchStore
  unfolding list_end
  load_page s none signal = ([], s)
  load_page s (some hits) none = ([], s)
  load_page s (some hits) (some signal) =
      if not (is_idle s.hits_status) || s.loading_more || not (is_more (list_end s))
      then ([], s)
      else (next_page signal hits ∷ [], record s { loading_more = true })

  pub maybe_load_more : SearchStore → List Request × SearchStore
  unfolding load_page
  maybe_load_more s = load_page s s.hits s.search_signal
