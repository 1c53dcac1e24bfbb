-- ===== src/Context/Slide.antt =====
-- The window of a direction: `#advance` of `ContextLoader` in
-- apps/web/src/lib/components/logs/drawer/context/context-loader.svelte.ts.
use rootprint.Common.{
  ℕ, suc, ◌+◌, text_eq, nat_eq, Bool, true, false, ◌||◌, Option, none, some, List, [], ◌∷◌,
  if◌then◌else◌, is_empty, length, ltb, leb,
}
use mathlib.Core.List.{reverse}
use rootprint.Common.Int.{ℤ, pos, ◌+ℤ◌, ◌-ℤ◌, ltb_ℤ, beq_ℤ}
use rootprint.Context.{
  Dir, DirectionState, RawHit, Side, Window, after, before, max_empty_slides, max_offset, page_size,
  window_seconds,
}

-- `===` on timestamps: NaN is equal to nothing.
abbrev same_seconds : Option ℤ → ℤ → Bool
same_seconds none b = false
same_seconds (some a) b = beq_ℤ a b

-- How many hits at the head of the list are of that second.
unfoldable pub ties : ℤ → List RawHit → ℕ
ties boundary [] = 0
ties boundary (h ∷ hs) = if same_seconds h.seconds boundary then suc (ties boundary hs) else 0

abbrev last_first : List RawHit → List RawHit
last_first hits = reverse hits

abbrev pub past_boundary : Dir → ℤ → ℤ
past_boundary before boundary = boundary +ℤ pos 1
past_boundary after boundary = boundary

-- `SIGN[dir] * (bound - w.bound) < 0`
abbrev pub falls_back : Dir → ℤ → ℤ → Bool
falls_back before old bound = ltb_ℤ old bound
falls_back after old bound = ltb_ℤ bound old

unfoldable pub slide : Dir → ℤ → ℤ
unfolding ◌+ℤ◌ ◌-ℤ◌
slide before bound = bound -ℤ window_seconds
slide after bound = bound +ℤ window_seconds

abbrev limit_side : DirectionState → Window → Side
limit_side s w = record { state = record s { limited = true }; win = w }

-- A full page whose last hit is of the second `boundary`; `others` are the hits before it, the last
-- first.
unfoldable pub advance_full : Dir → DirectionState → Window → ℤ → List RawHit → Side
unfolding ties ◌+ℤ◌
advance_full dir s w boundary others =
    let bound = past_boundary dir boundary in
    let offset = (if beq_ℤ bound w.bound then w.offset + 1 else 1) + ties boundary others in
    if falls_back dir w.bound bound || ltb max_offset offset
    then limit_side s w
    else record { state = s; win = record w { bound = bound; offset = offset } }

abbrev pub by_last : Dir → DirectionState → Window → List RawHit → Side
by_last dir s w [] = limit_side s w
by_last dir s w (last ∷ others) = elim last.seconds [
  | none ↦ limit_side s w
  | some boundary ↦ advance_full dir s w boundary others
]

unfoldable pub advance : Dir → List RawHit → Side → Side
unfolding advance_full slide
advance dir hits d =
    let w = record d.win { empty = if is_empty hits then suc d.win.empty else 0 } in
    if leb page_size (length hits) then by_last dir d.state w (last_first hits) else record {
      state = record d.state { no_more = leb max_empty_slides w.empty };
      win = record w { bound = slide dir w.bound; offset = 0 };
    }
