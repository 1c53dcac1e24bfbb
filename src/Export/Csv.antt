-- ===== src/Export/Csv.antt =====
-- The CSV of an export as a reader of CSV sees it.
use rootprint.Common.{
  text_before, ℕ, zero, suc, ◌≡◌, refl, ap, sym, ◌∙◌, inl, inr, Text, nat_eq, text_eq, ◌==◌,
  ==-sound, Bool, true, false, not, ◌||◌, Bool-cases, Option, none, some, List, [], ◌∷◌, ◌++◌,
  append_assoc, append-nil, if◌then◌else◌, map, any, length, join, arith, includes, ◌≢◌, drop,
  filter, any-append, includes-filter, includes-unique, unique,
}
use rootprint.Common.Dict
use rootprint.Common.Sort.{sort, any-sort}
use rootprint.Export.{
  quote, comma, newline, apostrophe, needs_quotes, is_formula, doubled, escape_csv_cell, csv_line,
  csv_lines, Row, row_cells, build_csv_header, format_csv_batch, format_scalar, csv_priority_fields,
  all_keys,
}

-- A cell that has not begun, one without quotes, one within quotes, and one after a quote in these.
pub data Mode : Type 0 where
  start plain quoted closing : Mode

-- What was read of a record: the cells before, and the one that is being read.
pub record Reading : Type 0 where
  pub mode : Mode
  pub cells : List Text
  pub cell : Text

pub data Read : Type 0 where
  more : Reading → Read
  finished : List Text → Read

abbrev next_cell : Reading → Reading
next_cell r = record { mode = start; cells = r.cells ++ r.cell ∷ []; cell = [] }

abbrev put_char : Mode → Reading → ℕ → Reading
put_char mode r c = record r { mode = mode; cell = r.cell ++ c ∷ [] }

abbrev unquoted : Reading → ℕ → Read
unquoted r c =
    if c == comma
    then more (next_cell r)
    else if c == newline
    then finished (r.cells ++ r.cell ∷ [])
    else more (put_char plain r c)

-- One character of a record, by RFC 4180: a quote opens a quoted cell, and within one it is written twice.
pub read_char : Mode → Reading → ℕ → Read
read_char start r c = if c == quote then more (record r { mode = quoted }) else unquoted r c
read_char plain r c = unquoted r c
read_char quoted r c =
    more (if c == quote then record r { mode = closing } else put_char quoted r c)
read_char closing r c = if c == quote then more (put_char quoted r c) else unquoted r c

-- The cells of the first record, and what follows its line.
pub read_record : Reading → Text → Option (List Text × Text)
unfolding read_char
read_record r [] = none
read_record r (c ∷ s) = elim (read_char r.mode r c) [
  | more r' ↦ read_record r' s
  | finished cells ↦ some (cells, s)
]

abbrev pub first_cell : List Text → Reading
first_cell cells = record { mode = start; cells = cells; cell = [] }

-- The number of records that is asked for.
pub read_records : ℕ → Text → Option (List (List Text) × Text)
unfolding read_record
read_records zero s = some ([], s)
read_records (suc n) s = elim (read_record (first_cell []) s) [
  | none ↦ none
  | some (cells, rest) ↦ elim (read_records n rest) [
    | none ↦ none
    | some (records, rest') ↦ some (cells ∷ records, rest')
  ]
]

-- A value as a spreadsheet shows it: one that would be a formula is a text with an apostrophe before it.
pub shown : Text → Text
shown value = if is_formula value then apostrophe ∷ value else value

abbrev in_mode : Mode → List Text → Text → Reading
in_mode mode cells cell = record { mode = mode; cells = cells; cell = cell }

read_record-doubled :
    (cells : List Text) (cell value s : Text)
    → read_record (in_mode quoted cells cell) (doubled value ++ quote ∷ s)
      ≡ read_record (in_mode closing cells (cell ++ value)) s
unfolding read_record read_char doubled
read_record-doubled cells cell [] s =
    ap (λ t. read_record (in_mode closing cells t) s) (sym (append-nil cell))
read_record-doubled cells cell (c ∷ value) s = elim (Bool-cases (c == quote)) [
  | inl e ↦ rw (==-sound c quote e) (
      read_record-doubled cells (cell ++ quote ∷ []) value s
      ∙ ap (λ t. read_record (in_mode closing cells t) s) (append_assoc cell (quote ∷ []) value))
  | inr e ↦
      rw (e, read_record, e)
        (read_record-doubled cells (cell ++ c ∷ []) value s
          ∙ ap (λ t. read_record (in_mode closing cells t) s) (append_assoc cell (c ∷ []) value))
]

-- A character of a cell without quotes.
is_plain : ℕ → Bool
unfolding needs_quotes
is_plain c = not (needs_quotes c)

read_record-plain :
    (cells : List Text) (cell value s : Text)
    → any needs_quotes value ≡ false
    → read_record (in_mode plain cells cell) (value ++ s)
      ≡ read_record (in_mode plain cells (cell ++ value)) s
unfolding read_record read_char needs_quotes
read_record-plain cells cell [] s h =
    ap (λ t. read_record (in_mode plain cells t) s) (sym (append-nil cell))
read_record-plain cells cell (c ∷ value) s h =
    let no_comma : (c == comma) ≡ false = ground arith in
    let no_line : (c == newline) ≡ false = ground arith in
    rw (no_comma, read_record, no_line)
      (read_record-plain cells (cell ++ c ∷ []) value s (ground arith)
        ∙ ap (λ t. read_record (in_mode plain cells t) s) (append_assoc cell (c ∷ []) value))

-- What a separator does to a cell that was read.
ends_with : ℕ → List Text → Text → Option (List Text × Text)
unfolding read_record
ends_with c cells s = if c == comma then read_record (first_cell cells) s else some (cells, s)

module _ (c : ℕ) (sep : (c == comma || c == newline) ≡ true) (cells : List Text) (s : Text) where
  read_record-sep_plain :
      (cell : Text)
      → read_record (in_mode plain cells cell) (c ∷ s) ≡ ends_with c (cells ++ cell ∷ []) s
  unfolding read_record read_char ends_with
  read_record-sep_plain cell = ground arith

  read_record-sep_closing :
      (cell : Text)
      → read_record (in_mode closing cells cell) (c ∷ s) ≡ ends_with c (cells ++ cell ∷ []) s
  unfolding read_record read_char ends_with
  read_record-sep_closing cell = ground arith

  read_record-sep_start : read_record (first_cell cells) (c ∷ s) ≡ ends_with c (cells ++ [] ∷ []) s
  unfolding read_record read_char ends_with
  read_record-sep_start = ground arith

  -- A cell of the export and the separator after it.
  read_record-escape :
      (v : Text)
      → read_record (first_cell cells) (escape_csv_cell v ++ c ∷ s)
        ≡ ends_with c (cells ++ shown v ∷ []) s
  unfolding escape_csv_cell read_record read_char shown needs_quotes
  read_record-escape v = elim (Bool-cases (is_formula v)) [
    | inl e ↦
        rw (e, append_assoc (doubled v) (quote ∷ []) (c ∷ s))
          (read_record-doubled cells (apostrophe ∷ []) v (c ∷ s)
            ∙ read_record-sep_closing (apostrophe ∷ v))
    | inr e ↦ elim (Bool-cases (any needs_quotes v)) [
      | inl q ↦
          rw (e, q, append_assoc (doubled v) (quote ∷ []) (c ∷ s))
            (read_record-doubled cells [] v (c ∷ s) ∙ read_record-sep_closing v)
      | inr q ↦ rw (e, q) (as_it_is v q)
    ]
  ]
    where
      as_it_is :
          (v : Text)
          → any needs_quotes v ≡ false
          → read_record (first_cell cells) (v ++ c ∷ s) ≡ ends_with c (cells ++ v ∷ []) s
      as_it_is [] q = read_record-sep_start
      as_it_is (x ∷ v) q =
          let no_quote : (x == quote) ≡ false = ground arith in
          let no_comma : (x == comma) ≡ false = ground arith in
          let no_line : (x == newline) ≡ false = ground arith in
          rw (no_quote, read_record, no_comma, no_line)
            (read_record-plain cells (x ∷ []) v (c ∷ s) (ground arith)
              ∙ read_record-sep_plain (x ∷ v))

read_record-csv_line :
    (done : List Text) (v : Text) (vs : List Text) (s : Text)
    → read_record (first_cell done) (csv_line (v ∷ vs) ++ s) ≡ some (done ++ map shown (v ∷ vs), s)
unfolding csv_line join ends_with
read_record-csv_line done v [] s =
    rw (append_assoc (escape_csv_cell v) (newline ∷ []) s)
      (read_record-escape newline refl done s v)
read_record-csv_line done v (w ∷ vs) s =
    let others = join (comma ∷ []) (map escape_csv_cell (w ∷ vs)) in
    rw
      (
        append_assoc (escape_csv_cell v) (comma ∷ others) (newline ∷ []),
        append_assoc (escape_csv_cell v) (comma ∷ (others ++ newline ∷ [])) s,
      )
      (read_record-escape comma refl done ((others ++ newline ∷ []) ++ s) v
        ∙ read_record-csv_line (done ++ shown v ∷ []) w vs s
        ∙ ap (λ r. some (r, s)) (append_assoc done (shown v ∷ []) (map shown (w ∷ vs))))

-- The lines of the hits, under a header that is not empty.
read_records-csv_lines :
    (col : Text) (cols : List Text) (rows : List Row)
    → read_records (length rows) (csv_lines (col ∷ cols) rows)
      ≡ some (map (λ row. map shown (row_cells (col ∷ cols) row)) rows, [])
unfolding read_records csv_lines row_cells
read_records-csv_lines col cols [] = refl
read_records-csv_lines col cols (row ∷ rows) =
    rw
      (
        read_record-csv_line [] (format_scalar (Dict.get row col)) (row_cells cols row)
            (csv_lines (col ∷ cols) rows),
        read_records,
        read_records-csv_lines col cols rows,
      )
      refl

-- The table of an export: a header, and a record for each hit.
pub table_of : List Row → List (List Text)
unfolding build_csv_header row_cells shown
table_of rows =
    let header = build_csv_header rows in
    map shown header ∷ map (λ row. map shown (row_cells header row)) rows

read_records-table :
    (header : List Text) (rows : List Row)
    → header ≢ []
    → read_records (suc (length rows)) (csv_line header ++ csv_lines header rows)
      ≡ some (map shown header ∷ map (λ row. map shown (row_cells header row)) rows, [])
unfolding read_records
read_records-table [] rows ne = absurd (ne refl)
read_records-table (col ∷ cols) rows ne =
    rw
      (
        read_record-csv_line [] col cols (csv_lines (col ∷ cols) rows),
        read_records,
        read_records-csv_lines col cols rows,
      )
      refl

includes-reordered :
    (first fields : List Text) (k : Text)
    → includes
        (filter (includes fields) first
          ++ sort text_before (filter (λ f. not (includes first f)) fields))
        k
      ≡ includes fields k
includes-reordered first fields k =
    any-append (λ x. x == k) (filter (includes fields) first)
      (sort text_before (filter (λ f. not (includes first f)) fields))
    ∙ ground (
      arith,
      includes-filter (includes fields) first k,
      any-sort text_before (λ x. x == k) (filter (λ f. not (includes first f)) fields),
      includes-filter (λ f. not (includes first f)) fields k,
    )

includes-all_keys :
    (rows : List Row) (k : Text)
    → includes (all_keys rows) k ≡ any (λ row. includes (Dict.keys row) k) rows
unfolding all_keys
includes-all_keys [] k = refl
includes-all_keys (row ∷ rows) k =
    any-append (λ x. x == k) (Dict.keys row) (all_keys rows)
    ∙ ap (λ b. includes (Dict.keys row) k || b) (includes-all_keys rows k)

includes-header :
    (rows : List Row) (k : Text)
    → includes (build_csv_header rows) k ≡ any (λ row. includes (Dict.keys row) k) rows
unfolding build_csv_header
includes-header rows k =
    includes-reordered csv_priority_fields (unique (all_keys rows)) k
    ∙ includes-unique (all_keys rows) k
    ∙ includes-all_keys rows k

-- Whatever the hits hold, a reader of CSV finds after the byte order mark of an export with at least one column the header and one record for each
-- hit, cell by cell, and nothing after them; only a value that a spreadsheet would take for a formula has
-- an apostrophe before it. The columns are exactly the keys of the hits.
pub read_records-format_csv_batch :
    (rows : List Row)
    → build_csv_header rows ≢ []
    → (read_records (suc (length rows)) (drop 1 (format_csv_batch rows)) ≡ some (table_of rows, []))
      × ((k : Text)
          → includes (build_csv_header rows) k ≡ any (λ row. includes (Dict.keys row) k) rows)
unfolding format_csv_batch table_of
read_records-format_csv_batch rows ne =
    (read_records-table (build_csv_header rows) rows ne, includes-header rows)
