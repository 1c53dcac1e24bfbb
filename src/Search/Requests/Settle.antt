-- ===== src/Search/Requests/Settle.antt =====
-- How a request of the log search settles: the `then`, `catch` and `finally` callbacks in
-- apps/web/src/lib/components/logs/search.svelte.ts.
use rootprint.Common.{
  ℕ, suc, Text, nat_eq, ◌==◌, false, none, some, List, [], ◌++◌, if◌then◌else◌, length,
}
use rootprint.Search.Requests.{
  SearchInput, SearchResult, Hits, Request, SearchStore, first_page, next_page, buckets, idle,
  is_live, batch_size,
}

module _ (Hit Sample : Type 0) (sample_of : List Hit → Sample) where
  abbrev pub new_hits : SearchInput → SearchResult Hit Sample sample_of → Hits Hit Sample sample_of
  new_hits input result = record {
    raw_hits = result.raw_hits;
    elapsed_time_micros = result.elapsed_time_micros;
    input = input;
    last_page_full = length result.raw_hits == batch_size;
    sample = sample_of result.raw_hits;
  }

  abbrev pub more_hits :
      Hits Hit Sample sample_of → SearchResult Hit Sample sample_of → Hits Hit Sample sample_of
  more_hits hits result = record hits {
    raw_hits = hits.raw_hits ++ result.raw_hits;
    last_page_full = length result.raw_hits == batch_size;
  }

  abbrev pub next_input : Hits Hit Sample sample_of → SearchInput
  next_input hits = record hits.input { offset = length hits.raw_hits }

  -- A request for rows is answered.
  unfoldable pub on_result :
      Request Hit Sample sample_of
      → SearchResult Hit Sample sample_of
      → SearchStore Hit Sample sample_of
      → SearchStore Hit Sample sample_of
  on_result (first_page signal input refreshes) result s =
      if is_live s.live signal
      then record s {
        hits_error = none;
        hits = some (new_hits input result);
        expanded_folds = [];
        fresh_searches = if refreshes then s.fresh_searches else suc s.fresh_searches;
        hits_status = idle;
      }
      else s
  on_result (next_page signal hits) result s =
      if is_live s.live signal
      then record s { hits = some (more_hits hits result); loading_more = false }
      else s
  on_result (buckets signal input refreshes) result s = s

  -- The histogram is answered.
  unfoldable pub on_histogram :
      Request Hit Sample sample_of
      → ℕ
      → SearchStore Hit Sample sample_of
      → SearchStore Hit Sample sample_of
  on_histogram (buckets signal input refreshes) total s =
      if is_live s.histogram_live signal
      then record s { histogram_error = none; total = some total; histogram_status = idle }
      else s
  on_histogram (first_page signal input refreshes) total s = s
  on_histogram (next_page signal hits) total s = s

  -- A request fails.
  unfoldable pub on_failure :
      Request Hit Sample sample_of
      → Text
      → SearchStore Hit Sample sample_of
      → SearchStore Hit Sample sample_of
  on_failure (first_page signal input refreshes) message s =
      if is_live s.live signal
      then record s {
        hits_error = some message;
        hits = if refreshes then s.hits else none;
        hits_status = idle;
      }
      else s
  on_failure (next_page signal hits) message s =
      if is_live s.live signal then record s { loading_more = false } else s
  on_failure (buckets signal input refreshes) message s =
      if is_live s.histogram_live signal
      then record s {
        histogram_error = some message;
        total = if refreshes then s.total else none;
        histogram_status = idle;
      }
      else s
