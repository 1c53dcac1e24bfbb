-- ===== src/Context/Run.antt =====
-- The methods of `ContextLoader` of
-- apps/web/src/lib/components/logs/drawer/context/context-loader.svelte.ts, and their orders.
use rootprint.Common.{
  ℕ, suc, Text, text_eq, nat_eq, ◌==◌, Bool, true, false, not, ◌||◌, Option, none, some, List, [],
  ◌∷◌, ◌++◌, if◌then◌else◌, includes,
}
use mathlib.Core.Option
use mathlib.Core.List.{reverse}
use rootprint.Common.Int.{ℤ, pos, ◌+ℤ◌, ◌-ℤ◌}
use rootprint.Context.{
  Answer, ContextChip, ContextEntry, Dir, Load, Loader, RawHit, Side, aborted, after, answered,
  before, build_chip_clause, failed, fresh_state, hit_key, put_side, request, side, window_seconds,
}
use rootprint.Context.Slide.{advance}

-- `#toEntries`: the hits that were not seen before, with the keys that are then seen and the key of
-- the next entry.
unfoldable pub to_entries : List Text → ℕ → List RawHit → List ContextEntry × List Text × ℕ
unfolding hit_key
to_entries seen key [] = ([], seen, key)
to_entries seen key (h ∷ hs) =
    let next = to_entries (hit_key h ∷ seen) (suc key) hs in
    let others = to_entries seen key hs in
    if includes seen (hit_key h)
    then others
    else (record { key = key; raw = h; is_anchor = false } ∷ next.0, next.1, next.2)

abbrev pub place : Dir → List ContextEntry → List ContextEntry → List ContextEntry
place before entries fresh = entries ++ fresh
place after entries fresh = reverse fresh ++ entries

-- Up to the answer of `searchLogs`.
unfoldable pub start_load : Dir → Loader → Loader × List Load
unfolding request
start_load dir l = (
  put_side dir l
      (record (side dir l) { state = record (side dir l).state { loading = true; error = none } }),
  record { dir = dir; seq = l.fetch_seq; input = request l dir } ∷ [],
)

abbrev pub not_loading : Side → Side
not_loading d = record d { state = record d.state { loading = false } }

abbrev pub take_page : Dir → List RawHit → Loader → Loader
take_page dir hits l =
    let (fresh, seen, key) = to_entries l.seen_keys l.next_entry_key hits in
    put_side dir
      (record l { entries = place dir l.entries fresh; seen_keys = seen; next_entry_key = key })
      (advance dir hits (side dir l))

abbrev pub settle_fresh : Dir → Answer → Loader → Loader
settle_fresh dir (answered hits) l = take_page dir hits l
settle_fresh dir aborted l = l
settle_fresh dir (failed e) l =
    put_side dir l (record (side dir l) { state = record (side dir l).state { error = some e } })

-- The rest of `#loadPage`; an answer to a load of an earlier `init` changes nothing.
unfoldable pub settle : Load → Answer → Loader → Loader
unfolding to_entries advance
settle p answer l =
    let l' = settle_fresh p.dir answer l in
    if p.seq == l.fetch_seq then put_side p.dir l' (not_loading (side p.dir l')) else l

abbrev side_at : ℤ → Side
side_at bound = record {
  state = fresh_state;
  win = record { bound = bound; offset = 0; empty = 0 };
}

-- What `init` sets before it looks at the timestamp, which is `bound` where it is valid.
abbrev pub reset : ℤ → Loader → Loader
reset bound l = record l {
  live = true;
  fetch_seq = suc l.fetch_seq;
  before_side = side_at bound;
  after_side = side_at bound;
  invalid = false;
  entries = record { key = l.next_entry_key; raw = l.anchor; is_anchor = true } ∷ [];
  next_entry_key = suc l.next_entry_key;
  seen_keys = hit_key l.anchor ∷ [];
}

abbrev both_loads : Loader → Loader × List Load
both_loads l =
    let (l', after_load) = start_load after l in
    let (l'', before_load) = start_load before l' in (l'', after_load ++ before_load)

abbrev pub begin_at : Option ℤ → Loader → Loader × List Load
begin_at none l = (record (reset (pos 0) l) { invalid = true; init_epoch = suc l.init_epoch }, [])
begin_at (some bound) l = both_loads (record (reset bound l) { loading_initial = true })

-- `init` up to the answers of its two loads.
unfoldable pub begin_init : Loader → Loader × List Load
unfolding start_load hit_key
begin_init l = begin_at l.anchor.seconds l

-- The rest of `init`, after the loads that it waits for; `seq` is its `thisSeq`.
unfoldable pub finish_init : ℕ → Loader → Loader
finish_init seq l =
    if seq == l.fetch_seq
    then record l { loading_initial = false; init_epoch = suc l.init_epoch }
    else l

unfoldable pub set_chips : List ContextChip → Loader → Loader × List Load
unfolding begin_init
set_chips chips l = if l.live then begin_init (record l { chips = chips }) else (l, [])

unfoldable pub load_more : Dir → Bool → Loader → Loader × List Load
unfolding start_load
load_more dir retry l =
    let s = (side dir l).state in
    if not l.live || l.loading_initial || l.invalid
    then (l, [])
    else if s.loading || s.no_more || s.limited
    then (l, [])
    else if elim s.error [ none ↦ false | some e ↦ not retry ]
    then (l, [])
    else start_load dir l

unfoldable pub dispose : Loader → Loader
dispose l = record l { fetch_seq = suc l.fetch_seq; live = false }

-- `new ContextLoader(anchor, indexId, fieldConfig, initialChips)`
unfoldable pub new_loader : RawHit → Text → List ContextChip → Loader
new_loader anchor index_id chips = record {
  anchor = anchor;
  index_id = index_id;
  chips = chips;
  entries = [];
  loading_initial = false;
  before_side = side_at (pos 0);
  after_side = side_at (pos 0);
  invalid = false;
  init_epoch = 0;
  seen_keys = [];
  live = false;
  fetch_seq = 0;
  next_entry_key = 0;
}

-- `getSearchHandoff`; the bounds are NaN where the timestamp is.
pub record SearchHandoff : Type 0 where
  pub query : Text
  pub start : Option ℤ
  pub end : Option ℤ

unfoldable pub search_handoff : Loader → SearchHandoff
unfolding build_chip_clause ◌+ℤ◌ ◌-ℤ◌
search_handoff l = record {
  query = build_chip_clause l.chips;
  start = Option.map (λ ts. ts -ℤ window_seconds) l.anchor.seconds;
  end = Option.map (λ ts. ts +ℤ window_seconds) l.anchor.seconds;
}

-- The loader with the loads that are still to be answered.
pub record World : Type 0 where
  pub loader : Loader
  pub pending : List Load

abbrev pub issue : World → Loader × List Load → World
issue w (l, loads) = record { loader = l; pending = w.pending ++ loads }

-- What the pane and the server do with a loader; answers come in any order.
pub data Step : World → World → Type 0 where
  inits : (w : World) → Step w (issue w (begin_init w.loader))
  sets_chips : (w : World) (chips : List ContextChip) → Step w (issue w (set_chips chips w.loader))
  loads_more :
      (w : World) (dir : Dir) (retry : Bool) → Step w (issue w (load_more dir retry w.loader))
  finishes : (w : World) (seq : ℕ) → Step w (record w { loader = finish_init seq w.loader })
  settles :
      (l : Loader) (ps : List Load) (p : Load) (qs : List Load) (answer : Answer)
      → Step
          (record { loader = l; pending = ps ++ p ∷ qs })
          (record { loader = settle p answer l; pending = ps ++ qs })
  disposes : (w : World) → Step w (record w { loader = dispose w.loader })

pub data Reaches (w : World) : World → Type 0 where
  start : Reaches w w
  next : {v u : World} → Reaches w v → Step v u → Reaches w u
