-- ===== src/Context/Stale.antt =====
-- The loads of `ContextLoader` that are still to be answered.
use rootprint.Common.{
  suc, ◌≤◌, ◌<◌, ◌≡◌, refl, inl, inr, nat_eq, ◌==◌, Bool, true, false, not, ◌||◌, Bool-cases,
  Option, none, some, List, [], ◌++◌, if◌then◌else◌, arith, All, All-imp, Text, append-nil,
}
use rootprint.Common.Int.{ℤ}
use rootprint.Context.{Dir, before, after, RawHit, ContextChip, Loader, Load, Answer, side}
use rootprint.Context.Run.{
  World, Step, inits, sets_chips, loads_more, finishes, settles, disposes, Reaches, start, next,
  settle, start_load, begin_init, begin_at, set_chips, load_more, finish_init, dispose, new_loader,
}
use rootprint.Context.Keys.{opened}
use rootprint.Context.Pending.{
  IsOrdered, in_flight, later, in_flight-later, begin_at-IsOrdered, start_load-IsOrdered,
  settle-IsOrdered,
}

IsOrdered-if :
    (b : Bool) (r s : Loader × List Load) (ps : List Load)
    → (b ≡ true → IsOrdered r.0 (ps ++ r.1))
    → (b ≡ false → IsOrdered s.0 (ps ++ s.1))
    → IsOrdered (if b then r else s).0 (ps ++ (if b then r else s).1)
IsOrdered-if true r s ps h k = h refl
IsOrdered-if false r s ps h k = k refl

append_none : (l : Loader) (ps : List Load) → IsOrdered l ps → IsOrdered l (ps ++ [])
append_none l ps h = rw (append-nil ps) h

loading-free : (a b c : Bool) → (a || b || c) ≡ false → a ≡ false
loading-free a b c h = ground (arith, h)

load_more-IsOrdered :
    (dir : Dir) (retry : Bool) (l : Loader) (ps : List Load)
    → IsOrdered l ps
    → IsOrdered (load_more dir retry l).0 (ps ++ (load_more dir retry l).1)
unfolding load_more
load_more-IsOrdered dir retry l ps h =
    IsOrdered-if (not l.live || l.loading_initial || l.invalid) (l, []) _ ps
      (λ _. append_none l ps h)
      (λ _.
        IsOrdered-if
          ((side dir l).state.loading || (side dir l).state.no_more || (side dir l).state.limited)
          (l, []) _ ps (λ _. append_none l ps h)
          (λ free.
            IsOrdered-if (elim (side dir l).state.error [ none ↦ false | some e ↦ not retry ])
              (l, []) _ ps (λ _. append_none l ps h)
              (λ _.
                start_load-IsOrdered dir l ps (loading-free (side dir l).state.loading _ _ free)
                  h)))

finish-one :
    (dir : Dir) (l : Loader) (ps : List Load)
    → IsOrdered l ps
    → in_flight dir l.fetch_seq ps ≤ (
        if (side dir
          (record l { loading_initial = false; init_epoch = suc l.init_epoch })).state.loading
        then 1
        else 0)
finish-one before l ps h = h.one before
finish-one after l ps h = h.one after

disposed-one :
    (dir : Dir) (l : Loader) (ps : List Load)
    → All (λ p. p.seq ≤ l.fetch_seq) ps
    → in_flight dir (suc l.fetch_seq) ps ≤ (if (side dir (dispose l)).state.loading then 1 else 0)
disposed-one dir l ps h = omega (arith, in_flight-later dir l.fetch_seq ps h)

abbrev pub IsOrderedWorld : World → Type 0
IsOrderedWorld w = IsOrdered w.loader w.pending

Step-IsOrdered : {w v : World} → Step w v → IsOrderedWorld w → IsOrderedWorld v
unfolding begin_init set_chips finish_init dispose
Step-IsOrdered (inits w) h = begin_at-IsOrdered w.loader.anchor.seconds w.loader w.pending h.known
Step-IsOrdered (sets_chips w chips) h =
    IsOrdered-if w.loader.live _ (w.loader, []) w.pending
      (λ _.
        begin_at-IsOrdered w.loader.anchor.seconds (record w.loader { chips = chips }) w.pending
          h.known)
      (λ _. append_none w.loader w.pending h)
Step-IsOrdered (loads_more w dir retry) h = load_more-IsOrdered dir retry w.loader w.pending h
Step-IsOrdered (finishes w seq) h = elim (Bool-cases (seq == w.loader.fetch_seq)) [
  | inl e ↦ rw e (record { known = h.known; one = λ dir. finish-one dir w.loader w.pending h })
  | inr e ↦ rw e h
]
Step-IsOrdered (settles l ps p qs answer) h = settle-IsOrdered l ps p qs answer h
Step-IsOrdered (disposes w) h = record {
  known = later w.loader.fetch_seq w.pending h.known;
  one = λ dir. disposed-one dir w.loader w.pending h.known;
}

Reaches-IsOrdered :
    (anchor : RawHit) (index_id : Text) (chips : List ContextChip) {w : World}
    → Reaches (opened anchor index_id chips) w
    → IsOrderedWorld w
unfolding new_loader in_flight
Reaches-IsOrdered anchor index_id chips start = record { known = tt; one = λ dir. omega arith }
Reaches-IsOrdered anchor index_id chips (next r s) =
    Step-IsOrdered s (Reaches-IsOrdered anchor index_id chips r)

-- In every state that a loader comes to from its start, a direction waits for one page at most whose
-- answer it would take, and only while it says that it is loading.
in_flight-le :
    (anchor : RawHit) (index_id : Text) (chips : List ContextChip) {w : World}
    → Reaches (opened anchor index_id chips) w
    → (dir : Dir)
    → in_flight dir w.loader.fetch_seq w.pending
      ≤ (if (side dir w.loader).state.loading then 1 else 0)
in_flight-le anchor index_id chips r dir = (Reaches-IsOrdered anchor index_id chips r).one dir

settle-old : (p : Load) (answer : Answer) (l : Loader) → p.seq < l.fetch_seq → settle p answer l ≡ l
unfolding settle
settle-old p answer l h = ground arith

-- A load that no answer of will be taken any more.
abbrev pub IsStale : Loader → Load → Type 0
IsStale l p = (answer : Answer) → settle p answer l ≡ l

begin_at-fetch_seq : (ts : Option ℤ) (l : Loader) → (begin_at ts l).0.fetch_seq ≡ suc l.fetch_seq
unfolding start_load
begin_at-fetch_seq none l = refl
begin_at-fetch_seq (some b) l = refl

-- In every state that a loader comes to from its start, a direction waits for one page at most whose
-- answer it would take, and only while it says that it is loading; and after `dispose` and after a new
-- `init` no answer to a page that was asked for before changes anything.
pub IsStale-pending :
    (anchor : RawHit) (index_id : Text) (chips : List ContextChip) {w : World}
    → Reaches (opened anchor index_id chips) w
    → ((dir : Dir)
        → in_flight dir w.loader.fetch_seq w.pending
          ≤ (if (side dir w.loader).state.loading then 1 else 0))
      × All (λ p. IsStale (dispose w.loader) p × IsStale (begin_init w.loader).0 p) w.pending
unfolding dispose begin_init
IsStale-pending anchor index_id chips {w} r = (
  in_flight-le anchor index_id chips r,
  All-imp w.pending
      (λ p h. (
        λ answer. settle-old p answer (dispose w.loader) (omega (arith, h)),
        λ answer.
            settle-old p answer (begin_init w.loader).0
              (omega (arith, h, begin_at-fetch_seq w.loader.anchor.seconds w.loader)),
      ))
      (Reaches-IsOrdered anchor index_id chips r).known,
)
