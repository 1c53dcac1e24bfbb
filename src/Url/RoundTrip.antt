-- ===== src/Url/RoundTrip.antt =====
-- A link read back: `serialize` and `deserialize`.
use rootprint.Common.{
  ℕ, ◌≡◌, ◌<◌, refl, ap, ◌∙◌, Text, codes, text_eq, nat_eq, ◌==◌, false, Option, none, some, [],
  ◌∷◌, if◌then◌else◌, is_empty, arith, All, map, text_beq, ltb,
}
use mathlib.Core.Option
use rootprint.Url.{
  SortDirection, asc, desc, Preset, TimeRange, relative, absolute, ParsedQuery, Numbers, param,
  param_all, preset_text, p5m, p15m, parse_preset, is_default_preset, encode_filter, decode_filters,
  index_params, query_params, sort_params, parse_sort, range_params, serialize, deserialize,
  parse_bound, preset_range, window_range, parse_time_range,
}
use rootprint.Url.Filters.{IsEncodable}
use rootprint.Url.Params.{
  or_param, or_param-none, param-append, param_all-append, param-filter_params,
  param_all-filter_params, decode_filters-map,
}

module _ (num : Numbers) where
  open num use {Num, show, parse, of_ℕ, is_negative, lt, floor, ceil}

  -- What ECMAScript says of whole numbers, and of the preset names.
  pub record NumberLaws : Type 0 where
    pub parse-show : (n : ℕ) → parse (show n) ≡ some (of_ℕ n)
    pub show-full : (n : ℕ) → is_empty (show n) ≡ false
    pub of_ℕ-positive : (n : ℕ) → is_negative (of_ℕ n) ≡ false
    pub lt-of_ℕ : (a b : ℕ) → lt (of_ℕ a) (of_ℕ b) ≡ ltb a b
    pub floor-of_ℕ : (n : ℕ) → floor (of_ℕ n) ≡ n
    pub ceil-of_ℕ : (n : ℕ) → ceil (of_ℕ n) ≡ n

  -- A window that is not empty; a preset is always one.
  abbrev pub IsWindow : TimeRange → Type 0
  IsWindow (relative preset) = Unit
  IsWindow (absolute start end) = start < end

  pub record IsShareable (q : ParsedQuery) : Type 0 where
    pub window : IsWindow q.time_range
    pub encodable : All IsEncodable q.filters

  abbrev from_param : TimeRange → Option Text
  from_param (relative p) = if is_default_preset p then none else some (preset_text p)
  from_param (absolute start end) = some (show start)

  abbrev to_param : TimeRange → Option Text
  to_param (relative p) = none
  to_param (absolute start end) = some (show end)

  param-index_params :
      (o : Option Text) (key : Text)
      → param (index_params o) key ≡ (if codes "index" == key then o else none)
  unfolding param
  param-index_params none key = ground arith
  param-index_params (some i) key = refl

  param-query_params :
      (q key : Text)
      → param (query_params q) key
        ≡ (if codes "q" == key then (if is_empty q then none else some q) else none)
  unfolding param
  param-query_params [] key = ground arith
  param-query_params (c ∷ q) key = refl

  param-range_params :
      (r : TimeRange) (key : Text)
      → param (range_params num r) key ≡ (
          if codes "from" == key
          then from_param r
          else if codes "to" == key
          then to_param r
          else none)
  unfolding param
  param-range_params (relative p) key = ground arith
  param-range_params (absolute start end) key = refl

  param-sort_params :
      (d : SortDirection) (key : Text)
      → param (sort_params d) key ≡ (
          if codes "sort" == key then (elim d [ asc ↦ some (codes "asc") | desc ↦ none ]) else none)
  unfolding param
  param-sort_params asc key = refl
  param-sort_params desc key = ground arith

  -- The parameters of a serialized query, key by key.
  param-serialize :
      (q : ParsedQuery) (key : Text)
      → (codes "f" == key) ≡ false
      → param (serialize num q) key
        ≡ or_param (param (index_params q.index) key) (
            or_param (param (query_params q.query) key) (
              or_param
                (param (range_params num q.time_range) key)
                (or_param (param (sort_params q.sort_direction) key) none)))
  unfolding serialize
  param-serialize q key h = simp (param-append, param-filter_params q.filters key h)

  param_all-index_params : (o : Option Text) → param_all (index_params o) (codes "f") ≡ []
  unfolding param_all text_beq
  param_all-index_params none = refl
  param_all-index_params (some i) = refl

  param_all-query_params : (q : Text) → param_all (query_params q) (codes "f") ≡ []
  unfolding param_all text_beq
  param_all-query_params [] = refl
  param_all-query_params (c ∷ q) = refl

  param_all-range_params : (r : TimeRange) → param_all (range_params num r) (codes "f") ≡ []
  unfolding param_all text_beq
  param_all-range_params (relative p) = ground arith
  param_all-range_params (absolute start end) = refl

  param_all-sort_params : (d : SortDirection) → param_all (sort_params d) (codes "f") ≡ []
  unfolding param_all text_beq
  param_all-sort_params asc = refl
  param_all-sort_params desc = refl

  filters_of :
      (q : ParsedQuery) → param_all (serialize num q) (codes "f") ≡ map encode_filter q.filters
  unfolding serialize
  filters_of q = simp (
    param_all-append, param_all-index_params, param_all-query_params, param_all-range_params,
    param_all-sort_params, param_all-filter_params,
  )

  param-serialize_index : (q : ParsedQuery) → param (serialize num q) (codes "index") ≡ q.index
  unfolding text_beq
  param-serialize_index q =
      param-serialize q (codes "index") refl
      ∙ simp (param-index_params, param-query_params, param-range_params, param-sort_params)
          (or_param-none q.index)

  param-serialize_q :
      (q : ParsedQuery)
      → param (serialize num q) (codes "q") ≡ (if is_empty q.query then none else some q.query)
  unfolding text_beq
  param-serialize_q q =
      param-serialize q (codes "q") refl
      ∙ simp (param-index_params, param-query_params, param-range_params, param-sort_params)
          (ground arith)

  param-serialize_from :
      (q : ParsedQuery) → param (serialize num q) (codes "from") ≡ from_param q.time_range
  unfolding text_beq
  param-serialize_from q =
      param-serialize q (codes "from") refl
      ∙ simp (param-index_params, param-query_params, param-range_params, param-sort_params)
          (or_param-none (from_param q.time_range))

  param-serialize_to :
      (q : ParsedQuery) → param (serialize num q) (codes "to") ≡ to_param q.time_range
  unfolding text_beq
  param-serialize_to q =
      param-serialize q (codes "to") refl
      ∙ simp (param-index_params, param-query_params, param-range_params, param-sort_params)
          (or_param-none (to_param q.time_range))

  param-serialize_sort :
      (q : ParsedQuery) → parse_sort (param (serialize num q) (codes "sort")) ≡ q.sort_direction
  unfolding text_beq
  param-serialize_sort q =
      ap parse_sort (param-serialize q (codes "sort") refl)
      ∙ simp (param-index_params, param-query_params, param-range_params, param-sort_params)
          (go q.sort_direction)
    where
      go :
          (d : SortDirection)
          → parse_sort (or_param (elim d [ asc ↦ some (codes "asc") | desc ↦ none ]) none) ≡ d
      go asc = refl
      go desc = refl

  window_range-none :
      (from : Option Text) (a : Option Num) → window_range num from a none ≡ preset_range num from
  unfolding window_range
  window_range-none from none = refl
  window_range-none from (some a) = refl

  window_range-params :
      (r : TimeRange)
      → NumberLaws
      → IsWindow r
      → window_range num
          (from_param r)
          (parse_bound num (from_param r))
          (parse_bound num (to_param r))
        ≡ r
  unfolding window_range preset_range parse_preset text_beq
  window_range-params (relative p) laws h =
      window_range-none (from_param (relative p)) (parse_bound num (from_param (relative p))) ∙ go p
    where
      go : (p : Preset) → preset_range num (from_param (relative p)) ≡ relative p
      go p15m = refl
      go p5m = refl
      go p = refl
  window_range-params (absolute start end) laws h =
      let full = laws.show-full start in
      let full' = laws.show-full end in
      rw (full, full', laws.parse-show start, laws.parse-show end)
        (rw
          (
            laws.of_ℕ-positive start,
            laws.lt-of_ℕ start end,
            laws.floor-of_ℕ start,
            laws.ceil-of_ℕ end,
          )
          (ground arith))

  -- Where whole numbers are read back as they are written, a query that is written into the URL is
  -- read back as it was, if its window is not empty and each of its filters can be carried by a
  -- URL.
  pub deserialize-serialize :
      (q : ParsedQuery) → NumberLaws → IsShareable q → deserialize num (serialize num q) ≡ q
  unfolding deserialize parse_time_range
  deserialize-serialize q laws h = λ i. record {
    index = param-serialize_index q i;
    query = (ap (λ o. Option.get_or o []) (param-serialize_q q) ∙ default q.query) i;
    time_range = range i;
    sort_direction = param-serialize_sort q i;
    filters = kept i;
  }
    where
      default : (t : Text) → Option.get_or (if is_empty t then none else some t) [] ≡ t
      default [] = refl
      default (c ∷ t) = refl

      range : parse_time_range num (serialize num q) ≡ q.time_range
      range =
          rw (param-serialize_from q, param-serialize_to q)
            (window_range-params q.time_range laws h.window)

      kept : decode_filters (param_all (serialize num q) (codes "f")) ≡ q.filters
      kept = ap decode_filters (filters_of q) ∙ decode_filters-map q.filters h.encodable
