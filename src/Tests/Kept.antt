-- ===== src/Tests/Kept.antt =====
-- Two users with one view each, and the preferences of one of them.
use rootprint.Common.{ℕ, ◌≡◌, Text, codes, text_eq, true, none, some, List, [], ◌∷◌}
use rootprint.Url.{desc}
use rootprint.Saved.{
  View, ViewPatch, create_view, update_owned_view, delete_owned_view, Preferences, inline,
}
use rootprint.Saved.Owners.{others, create_update_delete-others}

abbrev view_of : Text → ℕ → View
view_of user_id id = record {
  id = id;
  user_id = user_id;
  index_id = codes "logs";
  name = codes "mine";
  query = codes "*";
  filters = [];
  sort_direction = desc;
  columns = none;
  time_range = none;
}

abbrev two_views : List View
two_views = view_of (codes "u1") 1 ∷ view_of (codes "u2") 2 ∷ []

abbrev renamed : ViewPatch
renamed = record {
  name = some (codes "ours");
  query = none;
  filters = none;
  sort_direction = none;
  columns = none;
  time_range = none;
}

create_update_delete-others_example :
    (others (codes "u1") (create_view (view_of (codes "u1") 3) two_views).1
      ≡ others (codes "u1") two_views)
    × ((others (codes "u1") (update_owned_view (codes "u1") 2 (codes "logs") renamed two_views).1
          ≡ others (codes "u1") two_views)
        × (others (codes "u1") (delete_owned_view (codes "u1") 2 (codes "logs") two_views).1
            ≡ others (codes "u1") two_views))
create_update_delete-others_example =
    create_update_delete-others (view_of (codes "u1") 3) 2 (codes "logs") renamed two_views

abbrev fields : List Text
fields = codes "host" ∷ codes "level" ∷ codes "host" ∷ []

abbrev chosen : Preferences
chosen = record { display_fields = some fields; line_wrap = true; display_mode = inline }
