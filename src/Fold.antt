-- ===== src/Fold.antt =====
-- Folding of repeated log lines: apps/web/src/lib/components/logs/fold-hits.ts.
pub mod Runs
pub mod Rows
use rootprint.Common.{
  ℕ, suc, Text, text_eq, ◌==◌, Bool, true, false, Option, none, some, List, [], ◌∷◌, ◌++◌,
  if◌then◌else◌, map, includes, length,
}

-- `Raw` is the document of a hit.
module _ (Raw : Type 0) where
  pub record LogHit : Type 0 where
    pub key : Text
    pub timestamp : Text
    pub level : Text
    pub message : Text
    pub raw : Raw

  pub data LogListRow : Type 0 where
    hit_row : (hit : LogHit) → (fold_child : Bool) → LogListRow
    fold_row : (id : Text) → (hit : LogHit) → (count : ℕ) → (expanded : Bool) → LogListRow

-- `stringify` is `JSON.stringify` on strings, `cell` the text that a document shows in a column.
module _ {Raw : Type 0} (stringify : List Text → Text) (cell : Raw → Text → Text) where
  key_parts : Option Text → Raw → List Text → List Text
  key_parts timestamp_field raw [] = []
  key_parts timestamp_field raw (column ∷ columns) =
      let rest = key_parts timestamp_field raw columns in
      let is_timestamp : Bool = elim timestamp_field [ none ↦ false | some t ↦ column == t ] in
      if is_timestamp then rest else (column ++ b':' ∷ cell raw column) ∷ rest

  pub fold_key : LogHit Raw → List Text → Option Text → Text
  unfolding key_parts
  fold_key hit columns timestamp_field =
      stringify (hit.level ∷ key_parts timestamp_field hit.raw columns)

  -- The loop from the hit after which `run` is the open run and `run_key` its key, with the runs that
  -- it adds; `run` is the last one of `runs`, so it is listed where it ends.
  pub group_from :
      List Text
      → Option Text
      → List (LogHit Raw)
      → Text
      → List (LogHit Raw)
      → List (List (LogHit Raw))
  unfolding fold_key
  group_from columns timestamp_field run run_key [] = run ∷ []
  group_from columns timestamp_field run run_key (hit ∷ hits) =
      let key = fold_key hit columns timestamp_field in
      let longer = group_from columns timestamp_field (run ++ hit ∷ []) run_key hits in
      let opened = run ∷ group_from columns timestamp_field (hit ∷ []) key hits in
      if key == run_key then longer else opened

  -- `runKey` is null for the first hit alone.
  pub group_consecutive_hits :
      List (LogHit Raw) → List Text → Option Text → List (List (LogHit Raw))
  unfolding group_from
  group_consecutive_hits [] columns timestamp_field = []
  group_consecutive_hits (hit ∷ hits) columns timestamp_field =
      group_from columns timestamp_field (hit ∷ []) (fold_key hit columns timestamp_field) hits

module _ {Raw : Type 0} where
  pub fold_runs : List (List (LogHit Raw)) → List Text → List (LogListRow Raw)
  fold_runs [] expanded = []
  fold_runs ([] ∷ runs) expanded = fold_runs runs expanded
  fold_runs ((first ∷ []) ∷ runs) expanded = hit_row first false ∷ fold_runs runs expanded
  fold_runs ((first ∷ second ∷ rest) ∷ runs) expanded =
      let is_expanded = includes expanded first.key in
      let children = if is_expanded then map (λ h. hit_row h true) (second ∷ rest) else [] in
      fold_row first.key first (suc (suc (length rest))) is_expanded
      ∷ (children ++ fold_runs runs expanded)
