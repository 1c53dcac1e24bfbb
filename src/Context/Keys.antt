-- ===== src/Context/Keys.antt =====
-- The entries of `ContextLoader`, their keys and `#seenKeys`.
use rootprint.Common.{
  ℕ, suc, ◌+◌, ◌≤◌, ◌≡◌, refl, ap, ◌∙◌, inl, inr, Text, text_eq, nat_eq, Eq, ◌==◌, ==-sound, Bool,
  true, false, ◌&&◌, Bool-cases, Option, none, some, List, [], ◌∷◌, map, map-append, if◌then◌else◌,
  includes, ltb, leb, count, count-append, arith,
}
use mathlib.Core.List.{reverse, reverse-cons}
use rootprint.Common.Int.{ℤ, pos}
use rootprint.Context.{
  Dir, before, after, Side, RawHit, ContextEntry, ContextChip, Loader, Load, Answer, answered,
  aborted, failed, hit_key, put_side,
}
use rootprint.Context.Run.{
  reset, World, Step, inits, sets_chips, loads_more, finishes, settles, disposes, Reaches, start,
  next, to_entries, place, settle, settle_fresh, start_load, begin_init, begin_at, set_chips,
  load_more, finish_init, dispose, new_loader,
}

abbrev pub entry_id : ContextEntry → Text
entry_id e = hit_key e.raw

abbrev pub entry_key : ContextEntry → ℕ
entry_key e = e.key

-- Each record stands once, under a key of its own; `seen_keys` are the records that stand there.
pub record IsDistinct (entries : List ContextEntry) (seen : List Text) (next_key : ℕ) : Type 0 where
  pub records : (k : Text) → count k (map entry_id entries) ≡ (if includes seen k then 1 else 0)
  pub keys : (n : ℕ) → count n (map entry_key entries) ≤ (if ltb n next_key then 1 else 0)

count-reverse {ℓ} :
    {K : Type ℓ} ⦃eq : Eq K⦄ (f : ContextEntry → K) (k : K) (es : List ContextEntry)
    → count k (map f (reverse es)) ≡ count k (map f es)
count-reverse f k [] = refl
count-reverse f k (e ∷ es) =
    ap (λ r. count k (map f r)) (reverse-cons e es)
    ∙ ap (count k) (map-append f (reverse es) (e ∷ []))
    ∙ count-append k (map f (reverse es)) (map f (e ∷ []))
    ∙ omega (arith, count-reverse f k es)

count-place {ℓ} :
    {K : Type ℓ} ⦃eq : Eq K⦄ (f : ContextEntry → K) (k : K) (dir : Dir)
    (es fresh : List ContextEntry)
    → count k (map f (place dir es fresh)) ≡ count k (map f es) + count k (map f fresh)
count-place f k before es fresh =
    ap (count k) (map-append f es fresh) ∙ count-append k (map f es) (map f fresh)
count-place f k after es fresh =
    ap (count k) (map-append f (reverse fresh) es)
    ∙ count-append k (map f (reverse fresh)) (map f es)
    ∙ omega (arith, count-reverse f k fresh)

to_entries-records :
    (k : Text) (seen : List Text) (key : ℕ) (hits : List RawHit)
    → count k (map entry_id (to_entries seen key hits).0) + (if includes seen k then 1 else 0)
      ≡ (if includes (to_entries seen key hits).1 k then 1 else 0)
unfolding to_entries
to_entries-records k seen key [] = omega arith
to_entries-records k seen key (h ∷ hs) = elim (Bool-cases (includes seen (hit_key h))) [
  | inl old ↦ rw old (to_entries-records k seen key hs)
  | inr new ↦ elim (Bool-cases (hit_key h == k)) [
    | inl e ↦ rw new (
        ground (
          arith,
          to_entries-records k (hit_key h ∷ seen) (suc key) hs,
          e,
          ap (includes seen) (==-sound (hit_key h) k e),
          new,
        ))
    | inr e ↦ rw new (ground (arith, to_entries-records k (hit_key h ∷ seen) (suc key) hs, e))
  ]
]

to_entries-keys :
    (n : ℕ) (seen : List Text) (key : ℕ) (hits : List RawHit)
    → (key ≤ (to_entries seen key hits).2)
      × (count n (map entry_key (to_entries seen key hits).0)
          ≤ (if leb key n && ltb n (to_entries seen key hits).2 then 1 else 0))
unfolding to_entries
to_entries-keys n seen key [] = (omega arith, omega arith)
to_entries-keys n seen key (h ∷ hs) = elim (Bool-cases (includes seen (hit_key h))) [
  | inl old ↦ rw old (to_entries-keys n seen key hs)
  | inr new ↦ rw new (ground (arith, to_entries-keys n (hit_key h ∷ seen) (suc key) hs))
]

take_page-IsDistinct :
    (dir : Dir) (es : List ContextEntry) (seen : List Text) (key : ℕ) (hits : List RawHit)
    → IsDistinct es seen key
    → IsDistinct
        (place dir es (to_entries seen key hits).0)
        (to_entries seen key hits).1
        (to_entries seen key hits).2
take_page-IsDistinct dir es seen key hits h = record {
  records = λ k.
      count-place entry_id k dir es (to_entries seen key hits).0
      ∙ omega (arith, h.records k, to_entries-records k seen key hits);
  keys = λ n. ground (
    arith,
    h.keys n,
    to_entries-keys n seen key hits,
    count-place entry_key n dir es (to_entries seen key hits).0,
  );
}

abbrev pub HasDistinct : Loader → Type 0
HasDistinct l = IsDistinct l.entries l.seen_keys l.next_entry_key

HasDistinct-put :
    (dir : Dir) (l : Loader) (s : Side) → HasDistinct l → HasDistinct (put_side dir l s)
HasDistinct-put before l s h = h
HasDistinct-put after l s h = h

settle_fresh-HasDistinct :
    (dir : Dir) (answer : Answer) (l : Loader)
    → HasDistinct l
    → HasDistinct (settle_fresh dir answer l)
settle_fresh-HasDistinct dir (answered hits) l h =
    HasDistinct-put dir _ _ (take_page-IsDistinct dir l.entries l.seen_keys l.next_entry_key hits h)
settle_fresh-HasDistinct dir aborted l h = h
settle_fresh-HasDistinct dir (failed e) l h = HasDistinct-put dir l _ h

settle-HasDistinct :
    (p : Load) (answer : Answer) (l : Loader) → HasDistinct l → HasDistinct (settle p answer l)
unfolding settle
settle-HasDistinct p answer l h = elim (Bool-cases (p.seq == l.fetch_seq)) [
  | inl e ↦ rw e (HasDistinct-put p.dir _ _ (settle_fresh-HasDistinct p.dir answer l h))
  | inr e ↦ rw e h
]

reset-HasDistinct : (bound : ℤ) (l : Loader) → HasDistinct (reset bound l)
reset-HasDistinct bound l = record { records = λ k. ground arith; keys = λ n. ground arith }

begin_at-HasDistinct : (ts : Option ℤ) (l : Loader) → HasDistinct (begin_at ts l).0
unfolding start_load
begin_at-HasDistinct none l = reset-HasDistinct (pos 0) l
begin_at-HasDistinct (some bound) l = reset-HasDistinct bound l

begin_init-HasDistinct : (l : Loader) → HasDistinct (begin_init l).0
unfolding begin_init
begin_init-HasDistinct l = begin_at-HasDistinct l.anchor.seconds l

load_more-HasDistinct :
    (dir : Dir) (retry : Bool) (l : Loader) → HasDistinct l → HasDistinct (load_more dir retry l).0
unfolding load_more start_load
load_more-HasDistinct before retry l h = ground arith
load_more-HasDistinct after retry l h = ground arith

HasDistinct-if :
    (b : Bool) (r s : Loader × List Load)
    → HasDistinct r.0
    → HasDistinct s.0
    → HasDistinct (if b then r else s).0
HasDistinct-if true r s h k = h
HasDistinct-if false r s h k = k

Step-HasDistinct : {w v : World} → Step w v → HasDistinct w.loader → HasDistinct v.loader
unfolding set_chips finish_init dispose
Step-HasDistinct (inits w) h = begin_init-HasDistinct w.loader
Step-HasDistinct (sets_chips w chips) h =
    HasDistinct-if w.loader.live (begin_init (record w.loader { chips = chips })) (w.loader, [])
      (begin_init-HasDistinct (record w.loader { chips = chips })) h
Step-HasDistinct (loads_more w dir retry) h = load_more-HasDistinct dir retry w.loader h
Step-HasDistinct (finishes w seq) h = ground arith
Step-HasDistinct (settles l ps p qs answer) h = settle-HasDistinct p answer l h
Step-HasDistinct (disposes w) h = h

abbrev pub opened : RawHit → Text → List ContextChip → World
opened anchor index_id chips = record { loader = new_loader anchor index_id chips; pending = [] }

-- In every state that a loader comes to from its start, by any order of calls and answers, the entries
-- hold each record once, under keys that differ and were given out, and `#seenKeys` has exactly the
-- records that stand there.
pub Reaches-HasDistinct :
    (anchor : RawHit) (index_id : Text) (chips : List ContextChip) {w : World}
    → Reaches (opened anchor index_id chips) w
    → HasDistinct w.loader
unfolding new_loader
Reaches-HasDistinct anchor index_id chips start = record {
  records = λ k. refl;
  keys = λ n. ground arith;
}
Reaches-HasDistinct anchor index_id chips (next r s) =
    Step-HasDistinct s (Reaches-HasDistinct anchor index_id chips r)
