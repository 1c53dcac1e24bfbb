-- ===== src/Tests/Exports.antt =====
-- An export, the values of two fields, the panel of fields and the trace explorer.
use rootprint.Common.{
  ℕ, ◌*◌, ◌≤◌, ◌≡◌, ◌≢◌, refl, Text, codes, text_eq, text_beq, nat_eq, Bool, true, false, none,
  some, List, [], ◌∷◌, length, drop, includes, any, count, filter, if◌then◌else◌, is_empty, arith,
  All,
}
use rootprint.Common.Dict
use rootprint.Common.Dict.{Dict}
use rootprint.Common.Sort.{Descending}
use rootprint.Export.{string, null, Row, escape_csv_cell, build_csv_header, format_csv_batch}
use rootprint.Export.Csv.{read_records, table_of, read_records-format_csv_batch}
use rootprint.Url.{Filter}
use rootprint.Logs.{
  Bucket, BucketAggregation, Search, as_buckets, buckets_to_entries, is_truncated, bulk_size,
  field_values_bulk, field_values_max,
}
use rootprint.Logs.Entries.{values, docs_of, counted, buckets_to_entries-counted}
use rootprint.Logs.Bulk.{fields_with, field_values_bulk-answers}
use rootprint.Fields.{
  LogField, RankedField, BuildFieldSectionsInput, is_listed, build_field_sections,
}
use rootprint.Fields.Sections.{IsRow, names, shown, build_field_sections-shown}
use rootprint.Explore.{any_status, Percentiles, Totals, Errors, get_explore_overview}
use rootprint.Health.{count_of, dict_of}
use rootprint.Explore.Failures.{
  Span, number, is_found_failed, CountsFailures, get_explore_overview-CountsFailures,
}

escape_csv_cell_test : escape_csv_cell (codes "=1\"") ≡ codes "\"'=1\"\"\""
unfolding escape_csv_cell
escape_csv_cell_test = refl

escape_csv_cell_tab_test : escape_csv_cell (9 ∷ []) ≡ 34 ∷ 39 ∷ 9 ∷ 34 ∷ []
unfolding escape_csv_cell
escape_csv_cell_tab_test = refl

escape_csv_cell_return_test : escape_csv_cell (13 ∷ []) ≡ 34 ∷ 39 ∷ 13 ∷ 34 ∷ []
unfolding escape_csv_cell
escape_csv_cell_return_test = refl

abbrev hit : Row
hit =
    (codes "host", string (codes "=cmd()"))
    ∷ (codes "message", string (codes "a,b"))
    ∷ (codes "n", null)
    ∷ []

header_stands : build_csv_header (hit ∷ []) ≢ []
unfolding build_csv_header text_beq
header_stands = cc

read_records-format_csv_batch_example :
    (read_records 2 (drop 1 (format_csv_batch (hit ∷ []))) ≡ some (table_of (hit ∷ []), []))
    × ((k : Text)
        → includes (build_csv_header (hit ∷ [])) k
          ≡ any (λ row. includes (Dict.keys row) k) (hit ∷ []))
read_records-format_csv_batch_example = read_records-format_csv_batch (hit ∷ []) header_stands

abbrev bucket : Text → ℕ → Bucket
bucket key n = record { key = key; key_as_string = none; doc_count = n }

abbrev hosts : BucketAggregation
hosts = record {
  buckets = bucket (codes "a") 1 ∷ bucket (codes "b") 2 ∷ bucket (codes "a") 4 ∷ [];
  sum_other_doc_count = some 3;
}

buckets_to_entries_test :
    buckets_to_entries (some hosts)
    ≡ record { value = codes "a"; count = 5 } ∷ record { value = codes "b"; count = 2 } ∷ []
unfolding buckets_to_entries text_beq
buckets_to_entries_test = refl

buckets_to_entries-counted_example :
    Descending (λ e. e.count) (buckets_to_entries (some hosts))
    × ((v : Text) → count v (values (buckets_to_entries (some hosts))) ≤ 1)
    × ((v : Text)
        → is_empty v ≡ false
        → counted v (buckets_to_entries (some hosts)) ≡ docs_of v (as_buckets (some hosts)))
buckets_to_entries-counted_example = buckets_to_entries-counted (some hosts)

abbrev quickwit : Search
quickwit query fields size = (codes "host", hosts) ∷ []

abbrev host_is_a : Filter
host_is_a = record { field = codes "host"; value = codes "a"; exclude = false }

abbrev asked : List Text
asked = codes "level" ∷ codes "host" ∷ []

field_values_bulk-answers_example :
    (Dict.get
        (field_values_bulk quickwit asked (codes "up") (host_is_a ∷ []) 10).values
        (codes "host")
      ≡ (if includes asked (codes "host") then some (buckets_to_entries (some hosts)) else none))
    × (Dict.get
          (field_values_bulk quickwit asked (codes "up") (host_is_a ∷ []) 10).truncated
          (codes "host")
        ≡ (if includes asked (codes "host") then some (is_truncated (some hosts)) else none))
    × (includes asked (codes "host") ≡ true
        → bulk_size asked 10 * length (fields_with asked (host_is_a ∷ []) (codes "host"))
          ≤ field_values_max)
unfolding text_beq Dict.get
field_values_bulk-answers_example =
    field_values_bulk-answers quickwit asked (codes "up") (host_is_a ∷ []) 10 (codes "host")

abbrev column : Text → LogField
column name = record { name = name; display_name = name }

abbrev panel : BuildFieldSectionsInput
panel = record {
  fields =
      column (codes "host")
      ∷ column (codes "attributes.k")
      ∷ column (codes "attributes.unused")
      ∷ [];
  counts = (codes "attributes.k", 2) ∷ [];
  pinned = codes "host" ∷ [];
  in_use = [];
  opened = [];
  is_otel = true;
  search = [];
}

abbrev same : Text → Text
same s = s

abbrev never : RankedField → RankedField → Bool
never a b = false

build_field_sections-shown_example :
    All
      (λ s. Descending (λ r. r.count) s.fields × All (IsRow panel s.key) s.fields)
      (build_field_sections same never panel)
    × ((x : Text)
        → count x (shown (build_field_sections same never panel))
          ≡ count x (names (filter (is_listed same never panel) panel.fields)))
build_field_sections-shown_example = build_field_sections-shown same never panel

abbrev no_metrics : Percentiles Bool
no_metrics = record { p50 = none; p95 = none; p99 = none }

abbrev in_a_minute : List Span
in_a_minute =
    record { key_ms = 60; failed = true }
    ∷ record { key_ms = 60; failed = false }
    ∷ record { key_ms = 120; failed = true }
    ∷ []

abbrev span_totals : Totals Bool
span_totals = record {
  time =
      record { key_ms = 60; doc_count = 2; pct = no_metrics }
      ∷ record { key_ms = 120; doc_count = 1; pct = no_metrics }
      ∷ [];
  ops = [];
  sum_other_doc_count = 0;
  pct = no_metrics;
  services = codes "api" ∷ [];
}

abbrev span_errors : Errors
span_errors = record { time = (60, 1) ∷ (120, 1) ∷ []; ops = [] }

span_errors_count :
    (key_ms : ℕ)
    → any_status ≡ any_status
    → count_of span_errors.time key_ms ≡ number (is_found_failed any_status key_ms) in_a_minute
unfolding count_of dict_of Dict.get Dict.set
span_errors_count key_ms e = ground arith

get_explore_overview-CountsFailures_example :
    CountsFailures any_status in_a_minute
      (get_explore_overview any_status true (some span_totals) span_errors [] no_metrics)
get_explore_overview-CountsFailures_example =
    get_explore_overview-CountsFailures any_status true span_totals span_errors [] no_metrics
      in_a_minute (refl, (refl, tt)) span_errors_count
