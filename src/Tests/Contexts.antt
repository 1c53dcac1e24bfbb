-- ===== src/Tests/Contexts.antt =====
-- Runs of the context loader, and its theorems at them.
use rootprint.Common.{
  ◌≤◌, ◌≡◌, refl, codes, nat_eq, none, some, true, drop, [], ◌∷◌, if◌then◌else◌, All, map, text_beq,
}
use rootprint.Common.Int.{pos}
use rootprint.Context.{Dir, before, after, RawHit, Side, Load, answered, request, side, fresh_state}
use rootprint.Context.Slide.{advance}
use rootprint.Context.Run.{
  World, Reaches, start, next, inits, settles, issue, begin_init, start_load, settle, dispose,
  new_loader, reset,
}
use rootprint.Context.Keys.{HasDistinct, opened, Reaches-HasDistinct, entry_id}
use rootprint.Context.Pending.{in_flight}
use rootprint.Context.Stale.{IsStale, IsStale-pending}
use rootprint.Context.Progress.{MovesOn, advance-MovesOn}

abbrev anchor : RawHit
anchor = record { id = some (codes "a"); json = codes "{}"; seconds = some (pos 1000) }

abbrev later_hit : RawHit
later_hit = record { id = none; json = codes "{1}"; seconds = some (pos 1001) }

abbrev unopened : World
unopened = opened anchor (codes "logs") []

abbrev first_world : World
first_world = issue unopened (begin_init unopened.loader)

abbrev after_load : Load
after_load = record {
  dir = after;
  seq = 1;
  input = request (record (reset (pos 1000) unopened.loader) { loading_initial = true }) after;
}

-- The first page after the anchor has come, with the anchor and a new record that stands there twice.
abbrev page_taken : World
page_taken = record {
  loader = settle after_load (answered (anchor ∷ later_hit ∷ later_hit ∷ [])) first_world.loader;
  pending = drop 1 first_world.pending;
}

run : Reaches unopened page_taken
unfolding begin_init start_load new_loader
run = next (next start (inits unopened)) (
    settles first_world.loader [] after_load (drop 1 first_world.pending)
      (answered (anchor ∷ later_hit ∷ later_hit ∷ [])))

page_taken_test : map entry_id page_taken.loader.entries ≡ codes "{1}" ∷ codes "a" ∷ []
unfolding settle begin_init start_load new_loader text_beq
page_taken_test = refl

Reaches-HasDistinct_example : HasDistinct page_taken.loader
Reaches-HasDistinct_example = Reaches-HasDistinct anchor (codes "logs") [] run

IsStale-pending_example :
    ((dir : Dir)
      → in_flight dir page_taken.loader.fetch_seq page_taken.pending
        ≤ (if (side dir page_taken.loader).state.loading then 1 else 0))
    × All
        (λ p. IsStale (dispose page_taken.loader) p × IsStale (begin_init page_taken.loader).0 p)
        page_taken.pending
IsStale-pending_example = IsStale-pending anchor (codes "logs") [] run

abbrev fresh_side : Side
fresh_side = record {
  state = fresh_state;
  win = record { bound = pos 1000; offset = 0; empty = 0 };
}

advance-MovesOn_example : MovesOn before fresh_side (advance before [] fresh_side)
advance-MovesOn_example = advance-MovesOn before [] fresh_side
