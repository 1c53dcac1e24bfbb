-- ===== src/Fold/Rows.antt =====
-- The hits that the rows of a folded list stand for.
use rootprint.Common.{
  ℕ, suc, ◌+◌, Text, text_eq, ◌≡◌, refl, ap, ◌∙◌, Option, true, Bool-cases, inl, inr, List, [], ◌∷◌,
  ◌++◌, if◌then◌else◌, arith, map, length, length-append, includes,
}
use rootprint.Fold.{LogHit, LogListRow, hit_row, fold_row, fold_runs, group_consecutive_hits}
use rootprint.Fold.Runs.{concat, AreRuns, key_of, group_consecutive_hits-AreRuns}

module _ {Raw : Type 0} where
  -- The hits that a list of rows stands for: a fold that is closed stands for all of its hits.
  pub stands_for : List (LogListRow Raw) → ℕ
  stands_for [] = 0
  stands_for (hit_row hit fold_child ∷ rows) = suc (stands_for rows)
  stands_for (fold_row id hit count expanded ∷ rows) =
      (if expanded then 1 else count) + stands_for rows

  stands_for-append :
      (rs ss : List (LogListRow Raw)) → stands_for (rs ++ ss) ≡ stands_for rs + stands_for ss
  unfolding stands_for
  stands_for-append [] ss = omega arith
  stands_for-append (hit_row hit c ∷ rs) ss = omega (arith, stands_for-append rs ss)
  stands_for-append (fold_row id hit count e ∷ rs) ss = ground (arith, stands_for-append rs ss)

  stands_for-children :
      (hits : List (LogHit Raw)) → stands_for (map (λ h. hit_row h true) hits) ≡ length hits
  unfolding stands_for
  stands_for-children [] = refl
  stands_for-children (h ∷ hits) = ap suc (stands_for-children hits)

  -- Whatever folds are open, the rows stand for as many hits as there are in the runs.
  pub stands_for-fold_runs :
      (runs : List (List (LogHit Raw))) (expanded : List Text)
      → stands_for (fold_runs runs expanded) ≡ length (concat runs)
  unfolding fold_runs stands_for
  stands_for-fold_runs [] expanded = refl
  stands_for-fold_runs ([] ∷ runs) expanded = stands_for-fold_runs runs expanded
  stands_for-fold_runs ((first ∷ []) ∷ runs) expanded = ap suc (stands_for-fold_runs runs expanded)
  stands_for-fold_runs ((first ∷ second ∷ rest) ∷ runs) expanded =
      elim (Bool-cases (includes expanded first.key)) [
        | inl e ↦ rw e (
            omega (
              arith,
              stands_for-append (map (λ h. hit_row h true) (second ∷ rest))
                  (fold_runs runs expanded),
              stands_for-children rest,
              stands_for-fold_runs runs expanded,
              length-append rest (concat runs),
            ))
        | inr e ↦
            rw e
              (omega (arith, stands_for-fold_runs runs expanded, length-append rest (concat runs)))
      ]

  -- Grouping keeps every hit in its place and cuts exactly where the key changes; and whatever folds are
  -- open, the rows of the groups stand for as many hits as there are.
  pub fold_runs-group_consecutive_hits :
      (stringify : List Text → Text) (cell : Raw → Text → Text) (columns : List Text)
      (timestamp_field : Option Text) (hit : LogHit Raw) (hits : List (LogHit Raw))
      (expanded : List Text)
      → (concat (group_consecutive_hits stringify cell (hit ∷ hits) columns timestamp_field)
          ≡ hit ∷ hits)
        × AreRuns stringify cell columns timestamp_field
            (key_of stringify cell columns timestamp_field hit)
            (group_consecutive_hits stringify cell (hit ∷ hits) columns timestamp_field)
        × (stands_for (
              fold_runs
                (group_consecutive_hits stringify cell (hit ∷ hits) columns timestamp_field)
                expanded)
            ≡ length (hit ∷ hits))
  fold_runs-group_consecutive_hits stringify cell columns timestamp_field hit hits expanded =
      let (whole, runs) =
        group_consecutive_hits-AreRuns stringify cell columns timestamp_field hit hits in
      (whole, runs, stands_for-fold_runs _ expanded ∙ ap length whole)
