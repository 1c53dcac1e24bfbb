-- ===== src/Fold/Runs.antt =====
-- How grouping cuts the list of hits.
use rootprint.Common.{
  Text, text_eq, ◌==◌, ◌≡◌, refl, ap, ◌∙◌, false, Bool-cases, inl, inr, Option, List, [], ◌∷◌, ◌++◌,
  append_assoc, is_empty, All, All-append, ==-sound,
}
use rootprint.Fold.{LogHit, fold_key, group_from, group_consecutive_hits}

abbrev pub concat : {A : Type 0} → List (List A) → List A
concat [] = []
concat (xs ∷ xss) = xs ++ concat xss

is_empty-append : {A : Type 0} (xs : List A) (x : A) → is_empty (xs ++ x ∷ []) ≡ false
is_empty-append [] x = refl
is_empty-append (y ∷ xs) x = refl

module _ {Raw : Type 0} (stringify : List Text → Text) (cell : Raw → Text → Text)
    (columns : List Text) (timestamp_field : Option Text) where
  abbrev pub key_of : LogHit Raw → Text
  key_of hit = fold_key stringify cell hit columns timestamp_field

  abbrev pub IsUniform : Text → List (LogHit Raw) → Type 0
  IsUniform key run = All (λ h. key_of h ≡ key) run

  -- Runs of one key each, which no two neighbours share; the first has the key `key`.
  pub data AreRuns : Text → List (List (LogHit Raw)) → Type 0 where
    last_run :
        (key : Text) (run : List (LogHit Raw))
        → is_empty run ≡ false
        → IsUniform key run
        → AreRuns key (run ∷ [])
    next_run :
        (key : Text) (run : List (LogHit Raw)) (key' : Text) (runs : List (List (LogHit Raw)))
        → is_empty run ≡ false
        → IsUniform key run
        → (key' == key) ≡ false
        → AreRuns key' runs
        → AreRuns key (run ∷ runs)

  group_from-AreRuns :
      (run : List (LogHit Raw)) (key : Text) (hits : List (LogHit Raw))
      → is_empty run ≡ false
      → IsUniform key run
      → AreRuns key (group_from stringify cell columns timestamp_field run key hits)
  unfolding group_from
  group_from-AreRuns run key [] full same = last_run key run full same
  group_from-AreRuns run key (hit ∷ hits) full same = elim (Bool-cases (key_of hit == key)) [
    | inl e ↦ rw e (
        group_from-AreRuns (run ++ hit ∷ []) key hits (is_empty-append run hit)
          (All-append (λ h. key_of h ≡ key) run (hit ∷ []) same (==-sound (key_of hit) key e, tt)))
    | inr e ↦ rw e (
        next_run key run (key_of hit)
          (group_from stringify cell columns timestamp_field (hit ∷ []) (key_of hit) hits) full same
          e (group_from-AreRuns (hit ∷ []) (key_of hit) hits refl (refl, tt)))
  ]

  concat-group_from :
      (run : List (LogHit Raw)) (key : Text) (hits : List (LogHit Raw))
      → concat (group_from stringify cell columns timestamp_field run key hits) ≡ run ++ hits
  unfolding group_from
  concat-group_from run key [] = refl
  concat-group_from run key (hit ∷ hits) = elim (Bool-cases (key_of hit == key)) [
    | inl e ↦ rw e (concat-group_from (run ++ hit ∷ []) key hits ∙ append_assoc run (hit ∷ []) hits)
    | inr e ↦ rw e (ap (λ r. run ++ r) (concat-group_from (hit ∷ []) (key_of hit) hits))
  ]

  -- Grouping keeps every hit in its place and cuts exactly where the key changes.
  pub group_consecutive_hits-AreRuns :
      (hit : LogHit Raw) (hits : List (LogHit Raw))
      → (concat (group_consecutive_hits stringify cell (hit ∷ hits) columns timestamp_field)
          ≡ hit ∷ hits)
        × AreRuns
            (key_of hit)
            (group_consecutive_hits stringify cell (hit ∷ hits) columns timestamp_field)
  unfolding group_consecutive_hits
  group_consecutive_hits-AreRuns hit hits = (
    concat-group_from (hit ∷ []) (key_of hit) hits,
    group_from-AreRuns (hit ∷ []) (key_of hit) hits refl (refl, tt),
  )
