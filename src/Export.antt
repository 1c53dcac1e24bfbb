-- ===== src/Export.antt =====
-- The export of logs, apps/api/src/services/export.service.ts: the CSV of the hits and what is announced
-- before it. `stringify` is JSON.stringify; an object of JSON is its entries, and a number or a Boolean is
-- what `String(v)` makes of it. The text is encoded as it stands.
pub mod Csv
use rootprint.Common.{
  text_before, ℕ, min, Text, codes, text_eq, nat_eq, ◌==◌, Bool, false, not, ◌&&◌, ◌||◌, Option,
  none, some, List, [], ◌∷◌, ◌++◌, if◌then◌else◌, filter, map, includes, any, unique, ltb, leb,
  join,
}
use mathlib.Core.Option
use rootprint.Common.Dict
use rootprint.Common.Dict.{Dict}
use rootprint.Common.Sort.{sort}

-- `structured` holds what JSON.stringify makes of an array or an object.
pub data Cell : Type 0 where
  null : Cell
  string scalar structured : Text → Cell

pub format_scalar : Option Cell → Text
format_scalar none = []
format_scalar (some null) = []
format_scalar (some (string s)) = s
format_scalar (some (scalar s)) = s
format_scalar (some (structured s)) = s

abbrev pub Row : Type 0
Row = Dict Text Cell

abbrev pub quote : ℕ
quote = 34

abbrev pub comma : ℕ
comma = 44

abbrev pub newline : ℕ
newline = 10

abbrev pub apostrophe : ℕ
apostrophe = 39

-- `CSV_QUOTE_RE`
pub needs_quotes : ℕ → Bool
needs_quotes c = c == quote || c == newline || c == 13 || c == comma

-- `CSV_FORMULA_PREFIX_RE`
pub is_formula : Text → Bool
is_formula [] = false
is_formula (c ∷ s) = includes (codes "=+-@\t\r") c

-- `value.replaceAll('"', '""')`
pub doubled : Text → Text
doubled [] = []
doubled (c ∷ s) = let rest = doubled s in if c == quote then quote ∷ quote ∷ rest else c ∷ rest

unfoldable pub escape_csv_cell : Text → Text
unfolding doubled is_formula needs_quotes
escape_csv_cell value =
    if is_formula value
    then quote ∷ apostrophe ∷ (doubled value ++ quote ∷ [])
    else if any needs_quotes value
    then quote ∷ (doubled value ++ quote ∷ [])
    else value

abbrev pub csv_priority_fields : List Text
csv_priority_fields = codes "timestamp" ∷ codes "level" ∷ codes "message" ∷ []

pub all_keys : List Row → List Text
all_keys [] = []
all_keys (r ∷ rs) = Dict.keys r ++ all_keys rs

unfoldable pub build_csv_header : List Row → List Text
unfolding all_keys text_before sort unique
build_csv_header rows =
    let fields = unique (all_keys rows) in
    filter (includes fields) csv_priority_fields
    ++ sort text_before (filter (λ f. not (includes csv_priority_fields f)) fields)

pub csv_line : List Text → Text
unfolding escape_csv_cell join
csv_line cells = join (comma ∷ []) (map escape_csv_cell cells) ++ newline ∷ []

pub row_cells : List Text → Row → List Text
unfolding format_scalar Dict.get
row_cells header row = map (λ col. format_scalar (Dict.get row col)) header

pub csv_lines : List Text → List Row → Text
unfolding csv_line row_cells
csv_lines header [] = []
csv_lines header (r ∷ rs) = csv_line (row_cells header r) ++ csv_lines header rs

abbrev pub csv_bom : ℕ
csv_bom = 0xfeff

pub format_csv_batch : List Row → Text
unfolding build_csv_header csv_line csv_lines
format_csv_batch rows =
    let header = build_csv_header rows in csv_bom ∷ (csv_line header ++ csv_lines header rows)

pub data ExportFormat : Type 0 where
  json csv text : ExportFormat

pub pick_content_type : ExportFormat → Text
pick_content_type json = codes "application/x-ndjson"
pick_content_type csv = codes "text/csv; charset=utf-8"
pick_content_type text = codes "text/plain; charset=utf-8"

pub pick_extension : ExportFormat → Text
pick_extension json = codes "json"
pick_extension csv = codes "csv"
pick_extension text = codes "txt"

-- `/[^a-zA-Z0-9_.-]/g`
is_safe : ℕ → Bool
is_safe c =
    (leb b'a' c && leb c b'z')
    || (leb b'A' c && leb c b'Z')
    || (leb b'0' c && leb c b'9')
    || includes (codes "_.-") c

-- `stamp` is the time of the export, without milliseconds and colons.
pub build_filename : Text → Text → ExportFormat → Text
unfolding is_safe pick_extension
build_filename stamp index_id format =
    codes "rootprint-"
    ++ (map (λ c. if is_safe c then c else b'_') index_id
        ++ (b'-' ∷ (stamp ++ (b'.' ∷ pick_extension format))))

abbrev export_max_rows : ℕ
export_max_rows = 10000

pub record ExportPreflightResult : Type 0 where
  pub total : ℕ
  pub capped : Bool
  pub num_hits : ℕ

pub preflight_export : ℕ → ExportPreflightResult
preflight_export num_hits = record {
  total = min num_hits export_max_rows;
  capped = ltb export_max_rows num_hits;
  num_hits = num_hits;
}
