-- ===== src/Context/Progress.antt =====
-- What an answer does to the window of its direction.
use rootprint.Common.{
  ℕ, ◌+◌, ◌≤◌, ◌<◌, ◌≡◌, refl, sym, ◌∙◌, ◌⊎◌, inl, inr, Bool, true, false, ◌||◌, Bool-cases, Option,
  none, some, List, [], ◌∷◌, if◌then◌else◌, ltb, leb, length, arith, ltb→le, subst,
}
use mathlib.Core.List.{reverse}
use rootprint.Common.Int.{ℤ, ◌<ℤ◌, beq_ℤ, +ℤ_parts, -ℤ_parts}
use rootprint.Context.{
  Dir, before, after, RawHit, Side, Window, DirectionState, max_offset, page_size, window_seconds,
}
use rootprint.Context.Slide.{advance, advance_full, by_last, slide, falls_back, ties, past_boundary}

-- The next page starts later in the direction: at another second, or further into the same one.
abbrev pub Beyond : Dir → Window → Window → Type 0
Beyond before w w' = (w'.bound <ℤ w.bound) ⊎ ((w'.bound ≡ w.bound) × (w.offset < w'.offset))
Beyond after w w' = (w.bound <ℤ w'.bound) ⊎ ((w'.bound ≡ w.bound) × (w.offset < w'.offset))

-- An answer moves the window on and keeps its offset in bounds, or it stops the direction.
abbrev pub MovesOn : Dir → Side → Side → Type 0
MovesOn dir d d' =
    (d'.state.limited ≡ true) ⊎ (Beyond dir d.win d'.win × (d'.win.offset ≤ max_offset))

eq_of_beq : (a b : ℤ) → beq_ℤ a b ≡ true → a ≡ b
eq_of_beq a b h = ground (arith, h)

||-false : (a b : Bool) → (a || b) ≡ false → (a ≡ false) × (b ≡ false)
||-false a b h = ground (arith, h)

Beyond-same :
    (dir : Dir) (old w w' : Window)
    → old.bound ≡ w.bound
    → old.offset ≡ w.offset
    → Beyond dir w w'
    → Beyond dir old w'
Beyond-same before old w w' p q (inl h) = inl (subst (λ b. w'.bound <ℤ b) (sym p) h)
Beyond-same before old w w' p q (inr (e, h)) = inr (e ∙ sym p, omega (arith, q, h))
Beyond-same after old w w' p q (inl h) = inl (subst (λ b. b <ℤ w'.bound) (sym p) h)
Beyond-same after old w w' p q (inr (e, h)) = inr (e ∙ sym p, omega (arith, q, h))

Beyond-at :
    (dir : Dir) (w w' : Window) → w'.bound ≡ w.bound → w.offset < w'.offset → Beyond dir w w'
Beyond-at before w w' e h = inr (e, h)
Beyond-at after w w' e h = inr (e, h)

Beyond-moved :
    (dir : Dir) (w : Window) (bound : ℤ) (offset : ℕ)
    → falls_back dir w.bound bound ≡ false
    → beq_ℤ bound w.bound ≡ false
    → Beyond dir w (record w { bound = bound; offset = offset })
Beyond-moved before w bound offset h e = inl (ground (arith, h, e))
Beyond-moved after w bound offset h e = inl (ground (arith, h, e))

Beyond-full :
    (dir : Dir) (w : Window) (bound : ℤ) (more : ℕ)
    → falls_back dir w.bound bound ≡ false
    → Beyond dir w (record w {
      bound = bound;
      offset = (if beq_ℤ bound w.bound then w.offset + 1 else 1) + more;
    })
Beyond-full dir w bound more h = elim (Bool-cases (beq_ℤ bound w.bound)) [
  | inl e ↦ rw e (Beyond-at dir w _ (eq_of_beq bound w.bound e) (omega arith))
  | inr e ↦ Beyond-moved dir w bound _ h e
]

advance_full-MovesOn :
    (dir : Dir) (s : DirectionState) (old w : Window) (boundary : ℤ) (others : List RawHit)
    → w.bound ≡ old.bound
    → w.offset ≡ old.offset
    → MovesOn dir (record { state = s; win = old }) (advance_full dir s w boundary others)
unfolding advance_full
advance_full-MovesOn dir s old w boundary others p q =
    let bound = past_boundary dir boundary in
    let offset = (if beq_ℤ bound w.bound then w.offset + 1 else 1) + ties boundary others in
    elim (Bool-cases (falls_back dir w.bound bound || ltb max_offset offset)) [
      | inl stop ↦ rw stop (inl refl)
      | inr on ↦ rw on (
          inr (
            Beyond-same dir old w _ (sym p) (sym q)
                (Beyond-full dir w bound (ties boundary others) (||-false _ _ on).0),
            ltb→le max_offset offset (||-false _ _ on).1,
          ))
    ]

by_last-MovesOn :
    (dir : Dir) (s : DirectionState) (old w : Window) (hits : List RawHit)
    → w.bound ≡ old.bound
    → w.offset ≡ old.offset
    → MovesOn dir (record { state = s; win = old }) (by_last dir s w hits)
by_last-MovesOn dir s old w [] p q = inl refl
by_last-MovesOn dir s old w (h ∷ hs) p q = go h.seconds
  where
    go :
        (ts : Option ℤ)
        → MovesOn dir
            (record { state = s; win = old })
            (elim ts [
              | none ↦ record { state = record s { limited = true }; win = w }
              | some boundary ↦ advance_full dir s w boundary hs
            ])
    go none = inl refl
    go (some b) = advance_full-MovesOn dir s old w b hs p q

slide-Beyond :
    (dir : Dir) (w : Window) (n : ℕ)
    → Beyond dir w (record { bound = slide dir w.bound; offset = 0; empty = n })
unfolding slide
slide-Beyond before w n = inl (omega (arith, -ℤ_parts w.bound window_seconds))
slide-Beyond after w n = inl (omega (arith, +ℤ_parts w.bound window_seconds))

-- Whatever page of hits comes, the window of its direction moves on: past its bound, or at the same bound
-- further in, with an offset of at most 10000. Otherwise the direction is limited.
pub advance-MovesOn :
    (dir : Dir) (hits : List RawHit) (d : Side) → MovesOn dir d (advance dir hits d)
unfolding advance
advance-MovesOn dir hits d = elim (Bool-cases (leb page_size (length hits))) [
  | inl full ↦ rw full (by_last-MovesOn dir d.state d.win _ (reverse hits) refl refl)
  | inr short ↦ rw short (inr (slide-Beyond dir d.win _, omega arith))
]
