-- ===== src/Url.antt =====
-- The state of the log explorer in the URL: apps/web/src/lib/utils/query-params.ts and
-- apps/web/src/lib/utils/time-range.ts. `URLSearchParams` is the list of its pairs; percent-encoding
-- is the browser's and is not modelled.
pub mod Filters
pub mod Params
pub mod RoundTrip
use rootprint.Common.{
  ℕ, zero, ◌+◌, Text, codes, text_eq, bool_eq, nat_eq, ◌==◌, Bool, true, false, not, ◌&&◌, ◌||◌,
  Option, none, some, List, [], ◌∷◌, ◌++◌, if◌then◌else◌, is_empty, index_of, take, drop,
}
use mathlib.Core.Option

pub record Filter : Type 0 where
  pub field : Text
  pub value : Text
  pub exclude : Bool

pub data SortDirection : Type 0 where
  asc desc : SortDirection

pub data Preset : Type 0 where
  p5m p15m p30m p1h p3h p6h p24h p3d p7d p30d : Preset

pub data TimeRange : Type 0 where
  relative : (preset : Preset) → TimeRange
  absolute : (start : ℕ) → (end : ℕ) → TimeRange

pub record ParsedQuery : Type 0 where
  pub index : Option Text
  pub query : Text
  pub time_range : TimeRange
  pub sort_direction : SortDirection
  pub filters : List Filter

abbrev pub preset_text : Preset → Text
preset_text p5m = codes "5m"
preset_text p15m = codes "15m"
preset_text p30m = codes "30m"
preset_text p1h = codes "1h"
preset_text p3h = codes "3h"
preset_text p6h = codes "6h"
preset_text p24h = codes "24h"
preset_text p3d = codes "3d"
preset_text p7d = codes "7d"
preset_text p30d = codes "30d"

abbrev pub preset_seconds : Preset → ℕ
preset_seconds p5m = 300
preset_seconds p15m = 900
preset_seconds p30m = 1800
preset_seconds p1h = 3600
preset_seconds p3h = 10800
preset_seconds p6h = 21600
preset_seconds p24h = 86400
preset_seconds p3d = 259200
preset_seconds p7d = 604800
preset_seconds p30d = 2592000

abbrev preset_options : List Preset
preset_options = p5m ∷ p15m ∷ p30m ∷ p1h ∷ p3h ∷ p6h ∷ p24h ∷ p3d ∷ p7d ∷ p30d ∷ []

find_preset : Text → List Preset → Option Preset
find_preset s [] = none
find_preset s (p ∷ ps) = if preset_text p == s then some p else find_preset s ps

-- `isPreset`, with the preset that the text names.
pub parse_preset : Text → Option Preset
unfolding find_preset
parse_preset s = find_preset s preset_options

-- JavaScript's `String(n)` on a whole number, and `Number(s)`: `none` where it is not finite.
pub record Numbers : Type 1 where
  pub Num : Type 0
  pub show : ℕ → Text
  pub parse : Text → Option Num
  pub of_ℕ : ℕ → Num
  pub is_negative : Num → Bool
  pub lt : Num → Num → Bool
  pub floor : Num → ℕ
  pub ceil : Num → ℕ

abbrev pub Params : Type 0
Params = List (Text × Text)

-- `params.get(key)`: the first value.
pub param : Params → Text → Option Text
param [] key = none
param ((k, v) ∷ ps) key = if k == key then some v else param ps key

-- `params.getAll(key)`
pub param_all : Params → Text → List Text
param_all [] key = []
param_all ((k, v) ∷ ps) key = let rest = param_all ps key in if k == key then v ∷ rest else rest

abbrev sign_text : Bool → Text
sign_text exclude = if exclude then b'-' ∷ [] else []

pub encode_filter : Filter → Text
encode_filter f = sign_text f.exclude ++ (f.field ++ b':' ∷ f.value)

pub filter_key : Filter → Text
filter_key f = (if f.exclude then b'-' ∷ [] else b'+' ∷ []) ++ (f.field ++ b':' ∷ f.value)

-- `colon` is where the first colon stands.
split_filter : Bool → Text → Option ℕ → Option Filter
split_filter exclude s none = none
split_filter exclude s (some zero) = none
split_filter exclude s (some colon) =
    let field = take colon s in
    let value = drop (colon + 1) s in
    if is_empty field || is_empty value
    then none
    else some (record { field = field; value = value; exclude = exclude })

pub decode_unsigned : Bool → Text → Option Filter
unfolding split_filter
decode_unsigned exclude s = split_filter exclude s (index_of s b':')

pub decode_filter : Text → Option Filter
unfolding decode_unsigned
decode_filter [] = decode_unsigned false []
decode_filter (c ∷ s) = if c == b'-' then decode_unsigned true s else decode_unsigned false (c ∷ s)

abbrev is_default_preset : Preset → Bool
is_default_preset p15m = true
is_default_preset _ = false

pub decode_filters : List Text → List Filter
unfolding decode_filter
decode_filters [] = []
decode_filters (raw ∷ raws) =
    let rest = decode_filters raws in elim (decode_filter raw) [ none ↦ rest | some f ↦ f ∷ rest ]

pub filter_params : List Filter → Params
unfolding encode_filter
filter_params [] = []
filter_params (f ∷ fs) = (codes "f", encode_filter f) ∷ filter_params fs

abbrev index_params : Option Text → Params
index_params none = []
index_params (some index) = (codes "index", index) ∷ []

abbrev query_params : Text → Params
query_params q = if is_empty q then [] else (codes "q", q) ∷ []

abbrev sort_params : SortDirection → Params
sort_params asc = (codes "sort", codes "asc") ∷ []
sort_params desc = []

abbrev parse_sort : Option Text → SortDirection
parse_sort none = desc
parse_sort (some s) = if s == codes "asc" then asc else desc

module _ (num : Numbers) where
  open num use {Num, show, parse, is_negative, lt, floor, ceil}

  abbrev range_params : TimeRange → Params
  range_params (relative preset) =
      if is_default_preset preset then [] else (codes "from", preset_text preset) ∷ []
  range_params (absolute start end) = (codes "from", show start) ∷ (codes "to", show end) ∷ []

  pub serialize : ParsedQuery → Params
  unfolding filter_params
  serialize state =
      index_params state.index
      ++ (query_params state.query
          ++ (range_params state.time_range
              ++ (sort_params state.sort_direction ++ filter_params state.filters)))

  -- `from !== null && from !== '' ? Number(from) : NaN`
  abbrev parse_bound : Option Text → Option Num
  parse_bound none = none
  parse_bound (some s) = if is_empty s then none else parse s

  preset_range : Option Text → TimeRange
  preset_range none = relative p15m
  preset_range (some s) = elim (parse_preset s) [ none ↦ relative p15m | some p ↦ relative p ]

  window_range : Option Text → Option Num → Option Num → TimeRange
  unfolding preset_range
  window_range from (some a) (some b) =
      if not (is_negative a) && lt a b then absolute (floor a) (ceil b) else preset_range from
  window_range from _ _ = preset_range from

  pub parse_time_range : Params → TimeRange
  unfolding window_range param
  parse_time_range params =
      window_range (param params (codes "from")) (parse_bound (param params (codes "from")))
        (parse_bound (param params (codes "to")))

  pub deserialize : Params → ParsedQuery
  unfolding parse_time_range param param_all decode_filters
  deserialize params = record {
    index = param params (codes "index");
    query = Option.get_or (param params (codes "q")) [];
    time_range = parse_time_range params;
    sort_direction = parse_sort (param params (codes "sort"));
    filters = decode_filters (param_all params (codes "f"));
  }

  -- `fold = current.get('fold') === '1'`
  pub has_fold : Params → Bool
  unfolding param
  has_fold params = elim (param params (codes "fold")) [ none ↦ false | some v ↦ v == codes "1" ]

  -- `{ ...prev, ...partial }` is the change that `partial` makes to the query.
  pub build_query_url : Params → (ParsedQuery → ParsedQuery) → Bool → Params
  unfolding serialize deserialize
  build_query_url current partial fold =
      serialize (partial (deserialize current))
      ++ (if fold then (codes "fold", codes "1") ∷ [] else [])
