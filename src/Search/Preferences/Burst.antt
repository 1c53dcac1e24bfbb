-- ===== src/Search/Preferences/Burst.antt =====
-- Changes of the display preferences that come one after the other.
use rootprint.Common.{
  ◌≡◌, refl, sym, ap, subst, ◌∙◌, Text, text_eq, nat_eq, ◌==◌, ==-refl, true, false, not, ◌&&◌,
  Option, none, some, List, [], ◌∷◌, if◌then◌else◌,
}
use mathlib.Core.Option.{some-injective}
use rootprint.Saved.{Preferences}
use rootprint.Search.Preferences.{
  PrefSave, PrefStore, Edit, edited, folds_after, save_for, save_prefs, edit, commit, is_selected,
  is_latest, saved, save_failed,
}

abbrev pub edits : List Edit → PrefStore → PrefStore
edits [] s = s
edits (e ∷ es) s = edits es (edit s e)

abbrev pub all_edited : List Edit → Preferences → Preferences
all_edited [] p = p
all_edited (e ∷ es) p = all_edited es (edited e p)

-- The changes are shown, one save of them waits, and the rest is as it was.
pub record IsBurst (index_id : Text) (es : List Edit) (s s' : PrefStore) : Type 0 where
  pub shown : s'.shown ≡ all_edited es s.shown
  pub waits :
      s'.pref_save
      ≡ some (record { index_id = index_id; seq = s'.save_seq; snapshot = all_edited es s.shown })
  pub selected : s'.selected_index ≡ some index_id
  pub confirmed : s'.confirmed ≡ s.confirmed
  pub disposed : s'.disposed ≡ s.disposed

save_for-IsBurst :
    (index_id : Text) (o : Option Text) (s s' : PrefStore) (e : Edit)
    → o ≡ some index_id
    → s'.selected_index ≡ some index_id
    → s'.shown ≡ edited e s.shown
    → s'.confirmed ≡ s.confirmed
    → s'.disposed ≡ s.disposed
    → IsBurst index_id (e ∷ []) s (save_for o s')
save_for-IsBurst index_id none s s' e h selected shown confirmed disposed = absurd (cc h)
save_for-IsBurst index_id (some i) s s' e h selected shown confirmed disposed =
    let same : i ≡ index_id = some-injective i index_id h in
    record {
      shown = shown;
      waits = rw (same, shown) refl;
      selected = selected;
      confirmed = confirmed;
      disposed = disposed;
    }

edit-IsBurst :
    (index_id : Text) (e : Edit) (s : PrefStore)
    → s.selected_index ≡ some index_id
    → IsBurst index_id (e ∷ []) s (edit s e)
unfolding edit save_prefs
edit-IsBurst index_id e s h =
    save_for-IsBurst index_id s.selected_index s
      (record s { shown = edited e s.shown; expanded_folds = folds_after e s.expanded_folds }) e h h
      refl refl refl

edits-IsBurst :
    (index_id : Text) (e : Edit) (es : List Edit) (s : PrefStore)
    → s.selected_index ≡ some index_id
    → IsBurst index_id (e ∷ es) s (edits (e ∷ es) s)
edits-IsBurst index_id e [] s h = edit-IsBurst index_id e s h
edits-IsBurst index_id e (f ∷ es) s h =
    let one = edit-IsBurst index_id e s h in
    let more = edits-IsBurst index_id f es (edit s e) one.selected in
    record {
      shown = more.shown ∙ ap (all_edited (f ∷ es)) one.shown;
      waits =
          more.waits
          ∙ ap
              (λ p. some (record {
                index_id = index_id;
                seq = (edits (e ∷ f ∷ es) s).save_seq;
                snapshot = all_edited (f ∷ es) p;
              }))
              one.shown;
      selected = more.selected;
      confirmed = more.confirmed ∙ one.confirmed;
      disposed = more.disposed ∙ one.disposed;
    }

is_latest-sent :
    (index_id : Text) (p : Preferences) (s : PrefStore)
    → s.selected_index ≡ some index_id
    → is_latest (record { index_id = index_id; seq = s.save_seq; snapshot = p }) s ≡ true
is_latest-sent index_id p s h =
    ap (λ o. is_selected o index_id && s.save_seq == s.save_seq) h
    ∙ rw (==-refl index_id, ==-refl s.save_seq) refl

-- What the server has confirmed is what is shown.
abbrev pub InStep : PrefStore → Preferences → Type 0
InStep s p = (s.shown ≡ p) × (s.confirmed ≡ p)

saved-InStep :
    (p : PrefSave) (answer : Preferences) (s : PrefStore)
    → is_latest p s ≡ true
    → s.shown ≡ answer
    → InStep (saved p answer s) answer
unfolding saved
saved-InStep p answer s latest shown =
    subst (λ b. InStep (if b then record s { confirmed = answer } else s) answer) (sym latest)
      (shown, refl)

save_failed-InStep :
    (p : PrefSave) (before : Preferences) (s : PrefStore)
    → is_latest p s ≡ true
    → s.disposed ≡ false
    → s.confirmed ≡ before
    → InStep (save_failed p s) before
unfolding save_failed
save_failed-InStep p before s latest live confirmed =
    subst
      (λ b. InStep (if not b && is_latest p s then record s { shown = s.confirmed } else s) before)
      (sym live)
      (subst (λ b. InStep (if b then record s { shown = s.confirmed } else s) before) (sym latest)
        (confirmed, confirmed))

-- On a page with a selected index where what is shown is confirmed: changes one after the other are all
-- shown; once the timer runs out one save is sent, of all of them; where the server answers it with what
-- it was sent they are confirmed, and where it fails everything shown before the changes is back.
pub edits-saved_or_undone :
    (index_id : Text) (e : Edit) (es : List Edit) (s : PrefStore)
    → s.selected_index ≡ some index_id
    → s.disposed ≡ false
    → s.confirmed ≡ s.shown
    → (p : PrefSave) × ((edits (e ∷ es) s).shown ≡ all_edited (e ∷ es) s.shown)
      × ((commit (edits (e ∷ es) s)).0 ≡ some p)
      × (p.snapshot ≡ all_edited (e ∷ es) s.shown)
      × InStep (saved p p.snapshot (commit (edits (e ∷ es) s)).1) (all_edited (e ∷ es) s.shown)
      × InStep (save_failed p (commit (edits (e ∷ es) s)).1) s.shown
unfolding commit
edits-saved_or_undone index_id e es s selected live confirmed =
    let b = edits-IsBurst index_id e es s selected in
    let s' = edits (e ∷ es) s in
    let p : PrefSave = record {
      index_id = index_id;
      seq = s'.save_seq;
      snapshot = all_edited (e ∷ es) s.shown;
    } in
    let latest = is_latest-sent index_id (all_edited (e ∷ es) s.shown) s' b.selected in
    (
      p,
      b.shown,
      b.waits,
      refl,
      saved-InStep p p.snapshot (commit s').1 latest b.shown,
      save_failed-InStep p s.shown (commit s').1 latest (b.disposed ∙ live)
          (b.confirmed ∙ confirmed),
    )
