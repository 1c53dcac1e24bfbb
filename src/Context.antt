-- ===== src/Context.antt =====
-- The records around a log record, `ContextLoader` of
-- apps/web/src/lib/components/logs/drawer/context/context-loader.svelte.ts. An asynchronous method is
-- the part that runs at once and a part for each answer that it waits for; `settle` is the rest of
-- `#loadPage`, `finish_init` the rest of `init`.
pub mod Slide
pub mod Run
pub mod Keys
pub mod Progress
pub mod Pending
pub mod Stale
use rootprint.Common.{
  ℕ, Text, text_eq, codes, nat_eq, Bool, false, Option, none, some, List, ◌++◌, or_else, map, join,
}
use mathlib.Core.Option
use rootprint.Common.Int.{ℤ, pos, ◌+ℤ◌, ◌-ℤ◌}
use rootprint.Query.{escape_filter_value}
use rootprint.Url.{SortDirection, asc, desc}

abbrev pub page_size : ℕ
page_size = 200

abbrev pub window_seconds : ℤ
window_seconds = pos 900

abbrev pub max_empty_slides : ℕ
max_empty_slides = 3

abbrev pub max_offset : ℕ
max_offset = 10000

pub data Dir : Type 0 where
  before after : Dir

-- A raw hit, by what the loader reads of it: `_id` where that is a string, its JSON, and
-- `hitTimestampSeconds`, which is `none` where that is NaN.
pub record RawHit : Type 0 where
  pub id : Option Text
  pub json : Text
  pub seconds : Option ℤ

-- The value of a chip as a text.
pub record ContextChip : Type 0 where
  pub field : Text
  pub value : Text

-- The texts that `normalizeHit` makes of `raw` are left out.
pub record ContextEntry : Type 0 where
  pub key : ℕ
  pub raw : RawHit
  pub is_anchor : Bool

pub record DirectionState : Type 0 where
  pub loading : Bool
  pub no_more : Bool
  pub limited : Bool
  pub error : Option Text

pub record Window : Type 0 where
  pub bound : ℤ
  pub offset : ℕ
  pub empty : ℕ

-- One direction: its public state and its window.
pub record Side : Type 0 where
  pub state : DirectionState
  pub win : Window

-- `live` says that there is an abort controller; `invalid` that `error` says that the anchor has no
-- valid timestamp.
pub record Loader : Type 0 where
  pub anchor : RawHit
  pub index_id : Text
  pub chips : List ContextChip
  pub entries : List ContextEntry
  pub loading_initial : Bool
  pub before_side : Side
  pub after_side : Side
  pub invalid : Bool
  pub init_epoch : ℕ
  pub seen_keys : List Text
  pub live : Bool
  pub fetch_seq : ℕ
  pub next_entry_key : ℕ

pub record ContextInput : Type 0 where
  pub index_id : Text
  pub query : Text
  pub limit : ℕ
  pub offset : ℕ
  pub sort_direction : SortDirection
  pub start_ts : ℤ
  pub end_ts : ℤ

-- A page that was asked for, with the `thisSeq` of its `#loadPage`.
pub record Load : Type 0 where
  pub dir : Dir
  pub seq : ℕ
  pub input : ContextInput

pub data Answer : Type 0 where
  answered : (raw_hits : List RawHit) → Answer
  aborted : Answer
  failed : (error : Text) → Answer

abbrev pub fresh_state : DirectionState
fresh_state = record { loading = false; no_more = false; limited = false; error = none }

unfoldable pub hit_key : RawHit → Text
hit_key hit = elim hit.id [ none ↦ hit.json | some id ↦ or_else id hit.json ]

abbrev pub side : Dir → Loader → Side
side before l = l.before_side
side after l = l.after_side

abbrev pub put_side : Dir → Loader → Side → Loader
put_side before l s = record l { before_side = s }
put_side after l s = record l { after_side = s }

chip_clause : ContextChip → Text
chip_clause c = c.field ++ codes ":" ++ escape_filter_value c.value

unfoldable pub build_chip_clause : List ContextChip → Text
unfolding chip_clause
build_chip_clause chips = join (codes " AND ") (map chip_clause chips)

composed_query : List ContextChip → Text
unfolding build_chip_clause
composed_query chips = or_else (build_chip_clause chips) (codes "*")

input_from : Loader → Dir → Window → ContextInput
unfolding composed_query ◌+ℤ◌ ◌-ℤ◌
input_from l before w = record {
  index_id = l.index_id;
  query = composed_query l.chips;
  limit = page_size;
  offset = w.offset;
  sort_direction = desc;
  start_ts = w.bound -ℤ window_seconds;
  end_ts = w.bound;
}
input_from l after w = record {
  index_id = l.index_id;
  query = composed_query l.chips;
  limit = page_size;
  offset = w.offset;
  sort_direction = asc;
  start_ts = w.bound;
  end_ts = w.bound +ℤ window_seconds;
}

unfoldable pub request : Loader → Dir → ContextInput
unfolding input_from
request l dir = input_from l dir (side dir l).win
