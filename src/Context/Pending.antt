-- ===== src/Context/Pending.antt =====
-- The loads of `ContextLoader` that are still to be answered, as its operations issue and take them.
use rootprint.Common.{
  ℕ, suc, ◌+◌, ◌≤◌, ◌≡◌, refl, sym, ap, ◌∙◌, inl, inr, nat_eq, ◌==◌, Bool, true, false, ◌&&◌,
  Bool-cases, Option, none, some, List, [], ◌∷◌, ◌++◌, if◌then◌else◌, filter, filter-append, length,
  length-append, arith, All, All-append, All-remove, All-imp, subst,
}
use rootprint.Common.Int.{ℤ}
use rootprint.Context.{
  Dir, before, after, Loader, Load, Answer, answered, aborted, failed, put_side, side,
}
use rootprint.Context.Run.{settle, settle_fresh, start_load, begin_at, not_loading}

same_dir : Dir → Dir → Bool
same_dir before before = true
same_dir after after = true
same_dir _ _ = false

-- The load is of this direction, and its answer will be taken.
is_current : Dir → ℕ → Load → Bool
unfolding same_dir
is_current dir seq p = same_dir dir p.dir && p.seq == seq

unfoldable pub in_flight : Dir → ℕ → List Load → ℕ
unfolding is_current
in_flight dir seq ps = length (filter (is_current dir seq) ps)

-- No load is of a later `init`, and a direction waits for one answer at most, while it says that it
-- is loading.
pub record IsOrdered (l : Loader) (ps : List Load) : Type 0 where
  pub known : All (λ p. p.seq ≤ l.fetch_seq) ps
  pub one :
      (dir : Dir) → in_flight dir l.fetch_seq ps ≤ (if (side dir l).state.loading then 1 else 0)

in_flight-append :
    (dir : Dir) (seq : ℕ) (ps qs : List Load)
    → in_flight dir seq (ps ++ qs) ≡ in_flight dir seq ps + in_flight dir seq qs
unfolding in_flight
in_flight-append dir seq ps qs =
    ap length (filter-append (is_current dir seq) ps qs)
    ∙ length-append (filter (is_current dir seq) ps) (filter (is_current dir seq) qs)

-- No load is of a round to come.
pub in_flight-later :
    (dir : Dir) (seq : ℕ) (ps : List Load)
    → All (λ p. p.seq ≤ seq) ps
    → in_flight dir (suc seq) ps ≡ 0
unfolding in_flight
in_flight-later dir seq [] h = refl
in_flight-later dir seq (p ∷ ps) (q, h) = ground (arith, in_flight-later dir seq ps h)

pub later : (seq : ℕ) (ps : List Load) → All (λ p. p.seq ≤ seq) ps → All (λ p. p.seq ≤ suc seq) ps
later seq ps h = All-imp ps (λ p k. omega (arith, k)) h

begin_at-one :
    (dir : Dir) (bound : ℤ) (l : Loader) (ps : List Load)
    → All (λ p. p.seq ≤ l.fetch_seq) ps
    → in_flight dir (suc l.fetch_seq) (ps ++ (begin_at (some bound) l).1)
      ≤ (if (side dir (begin_at (some bound) l).0).state.loading then 1 else 0)
unfolding start_load in_flight is_current same_dir
begin_at-one before bound l ps h = ground (
  arith,
  in_flight-append before (suc l.fetch_seq) ps (begin_at (some bound) l).1,
  in_flight-later before l.fetch_seq ps h,
)
begin_at-one after bound l ps h = ground (
  arith,
  in_flight-append after (suc l.fetch_seq) ps (begin_at (some bound) l).1,
  in_flight-later after l.fetch_seq ps h,
)

pub begin_at-IsOrdered :
    (ts : Option ℤ) (l : Loader) (ps : List Load)
    → All (λ p. p.seq ≤ l.fetch_seq) ps
    → IsOrdered (begin_at ts l).0 (ps ++ (begin_at ts l).1)
unfolding start_load in_flight
begin_at-IsOrdered none l ps h = record {
  known = All-append _ ps [] (later l.fetch_seq ps h) tt;
  one = λ dir.
      omega
        (arith, in_flight-append dir (suc l.fetch_seq) ps [], in_flight-later dir l.fetch_seq ps h);
}
begin_at-IsOrdered (some bound) l ps h = record {
  known = All-append _ ps _ (later l.fetch_seq ps h) (omega arith, (omega arith, tt));
  one = λ dir. begin_at-one dir bound l ps h;
}

pub start_load-IsOrdered :
    (dir : Dir) (l : Loader) (ps : List Load)
    → (side dir l).state.loading ≡ false
    → IsOrdered l ps
    → IsOrdered (start_load dir l).0 (ps ++ (start_load dir l).1)
unfolding start_load in_flight is_current same_dir
start_load-IsOrdered before l ps free h = record {
  known = All-append _ ps _ h.known (omega arith, tt);
  one = one_before;
}
  where
    one_before :
        (dir : Dir)
        → in_flight dir l.fetch_seq (ps ++ (start_load before l).1)
          ≤ (if (side dir (start_load before l).0).state.loading then 1 else 0)
    one_before before =
        ground (
          arith,
          free,
          h.one before,
          in_flight-append before l.fetch_seq ps (start_load before l).1,
        )
    one_before after =
        ground (arith, h.one after, in_flight-append after l.fetch_seq ps (start_load before l).1)
start_load-IsOrdered after l ps free h = record {
  known = All-append _ ps _ h.known (omega arith, tt);
  one = one_after;
}
  where
    one_after :
        (dir : Dir)
        → in_flight dir l.fetch_seq (ps ++ (start_load after l).1)
          ≤ (if (side dir (start_load after l).0).state.loading then 1 else 0)
    one_after after =
        ground
          (arith, free, h.one after, in_flight-append after l.fetch_seq ps (start_load after l).1)
    one_after before =
        ground (arith, h.one before, in_flight-append before l.fetch_seq ps (start_load after l).1)

settled : Dir → Answer → Loader → Loader
settled dir answer l =
    let l' = settle_fresh dir answer l in put_side dir l' (not_loading (side dir l'))

settled-loading :
    (dir at : Dir) (answer : Answer) (l : Loader)
    → (side dir (settled at answer l)).state.loading
      ≡ (if same_dir dir at then false else (side dir l).state.loading)
unfolding settled same_dir
settled-loading before before answer l = refl
settled-loading after after answer l = refl
settled-loading before after (answered hits) l = refl
settled-loading before after aborted l = refl
settled-loading before after (failed e) l = refl
settled-loading after before (answered hits) l = refl
settled-loading after before aborted l = refl
settled-loading after before (failed e) l = refl

settled-fetch_seq :
    (at : Dir) (answer : Answer) (l : Loader) → (settled at answer l).fetch_seq ≡ l.fetch_seq
unfolding settled
settled-fetch_seq before (answered hits) l = refl
settled-fetch_seq before aborted l = refl
settled-fetch_seq before (failed e) l = refl
settled-fetch_seq after (answered hits) l = refl
settled-fetch_seq after aborted l = refl
settled-fetch_seq after (failed e) l = refl

in_flight-remove :
    (dir : Dir) (seq : ℕ) (ps : List Load) (p : Load) (qs : List Load)
    → in_flight dir seq (ps ++ p ∷ qs)
      ≡ in_flight dir seq (ps ++ qs) + (if same_dir dir p.dir && p.seq == seq then 1 else 0)
unfolding is_current in_flight
in_flight-remove dir seq ps p qs =
    ground (arith, in_flight-append dir seq ps (p ∷ qs), in_flight-append dir seq ps qs)

pub settle-IsOrdered :
    (l : Loader) (ps : List Load) (p : Load) (qs : List Load) (answer : Answer)
    → IsOrdered l (ps ++ p ∷ qs)
    → IsOrdered (settle p answer l) (ps ++ qs)
unfolding settle settled
settle-IsOrdered l ps p qs answer h = elim (Bool-cases (p.seq == l.fetch_seq)) [
  | inl e ↦ rw e (record {
    known =
        subst (λ seq. All (λ q. q.seq ≤ seq) (ps ++ qs)) (sym (settled-fetch_seq p.dir answer l))
          (All-remove _ ps p qs h.known).1;
    one = λ dir.
        subst
          (λ seq.
            in_flight dir seq (ps ++ qs)
            ≤ (if (side dir (settled p.dir answer l)).state.loading then 1 else 0))
          (sym (settled-fetch_seq p.dir answer l))
          (ground (
            arith,
            h.one dir,
            e,
            in_flight-remove dir l.fetch_seq ps p qs,
            settled-loading dir p.dir answer l,
          ));
  })
  | inr e ↦ rw e (record {
    known = (All-remove _ ps p qs h.known).1;
    one = λ dir. omega (arith, h.one dir, in_flight-remove dir l.fetch_seq ps p qs);
  })
]
