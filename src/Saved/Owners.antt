-- ===== src/Saved/Owners.antt =====
-- Whose saved views an operation changes.
use rootprint.Common.{
  ℕ, Text, text_eq, nat_eq, ◌==◌, ◌≡◌, refl, not, ◌&&◌, Bool-cases, inl, inr, Option, none, some,
  List, [], ◌∷◌, if◌then◌else◌, any, filter, map, arith, ==-refl,
}
use rootprint.Saved.{
  View, ViewPatch, is_owned, patched, update_row, same_name, create_view, update_owned_view,
  delete_owned_view,
}

-- The views of the other users.
abbrev pub others : Text → List View → List View
others user_id views = filter (λ v. not (v.user_id == user_id)) views

others-map :
    (user_id : Text) (id : ℕ) (index_id : Text) (patch : ViewPatch) (views : List View)
    → others user_id
        (map (λ v. if is_owned user_id id index_id v then patched patch v else v) views)
      ≡ others user_id views
others-map user_id id index_id patch [] = refl
others-map user_id id index_id patch (v ∷ views) =
    ground (arith, others-map user_id id index_id patch views)

others-filter :
    (user_id : Text) (id : ℕ) (index_id : Text) (views : List View)
    → others user_id (filter (λ v. not (is_owned user_id id index_id v)) views)
      ≡ others user_id views
others-filter user_id id index_id [] = refl
others-filter user_id id index_id (v ∷ views) =
    ground (arith, others-filter user_id id index_id views)

update_row-others :
    (user_id : Text) (id : ℕ) (index_id : Text) (patch : ViewPatch) (views : List View)
    (o : Option View)
    → others user_id (update_row user_id id index_id patch views o).1 ≡ others user_id views
unfolding update_row
update_row-others user_id id index_id patch views none = refl
update_row-others user_id id index_id patch views (some row) =
    elim (Bool-cases (any (λ v. same_name (patched patch row) v && not (v.id == row.id)) views)) [
      | inl taken ↦ rw taken refl
      | inr free ↦ rw free (others-map user_id id index_id patch views)
    ]

delete_owned_view-others :
    (user_id : Text) (id : ℕ) (index_id : Text) (views : List View)
    → others user_id (delete_owned_view user_id id index_id views).1 ≡ others user_id views
unfolding delete_owned_view
delete_owned_view-others user_id id index_id views =
    elim (Bool-cases (any (is_owned user_id id index_id) views)) [
      | inl found ↦ rw found (others-filter user_id id index_id views)
      | inr missing ↦ rw missing refl
    ]

create_view-others :
    (row : View) (views : List View)
    → others row.user_id (create_view row views).1 ≡ others row.user_id views
unfolding create_view
create_view-others row views = elim (Bool-cases (any (same_name row) views)) [
  | inl taken ↦ rw taken refl
  | inr free ↦ rw (free, ==-refl row.user_id) refl
]

-- Creating, changing or deleting a view leaves the views of every other user as they were, whatever
-- id is asked for.
pub create_update_delete-others :
    (row : View) (id : ℕ) (index_id : Text) (patch : ViewPatch) (views : List View)
    → (others row.user_id (create_view row views).1 ≡ others row.user_id views)
      × ((others row.user_id (update_owned_view row.user_id id index_id patch views).1
            ≡ others row.user_id views)
          × (others row.user_id (delete_owned_view row.user_id id index_id views).1
              ≡ others row.user_id views))
unfolding update_owned_view
create_update_delete-others row id index_id patch views = (
  create_view-others row views,
  (
    update_row-others row.user_id id index_id patch views _,
    delete_owned_view-others row.user_id id index_id views,
  ),
)
