-- ===== src/Saved/Prefs.antt =====
-- Preferences: saving them and reading them.
use rootprint.Common.{
  Text, text_eq, ◌==◌, ◌≡◌, ap, ◌∙◌, true, false, ◌||◌, some, List, [], ◌∷◌, ◌++◌, any-append,
  includes, arith, ==-sound,
}
use mathlib.Core.Option
use rootprint.Common.Dict
use rootprint.Common.Dict.{Dict}
use rootprint.Saved.{
  Preferences, PrefKey, pref_eq, pref_same, pref_same_iff, stored, default_preferences, unique_from,
  get_preferences, put_preferences,
}

includes-unique_from :
    (kept xs : List Text) (x : Text)
    → includes (unique_from kept xs) x ≡ (includes kept x || includes xs x)
unfolding unique_from
includes-unique_from kept [] x = ground arith
includes-unique_from kept (y ∷ xs) x = ground (
  arith,
  includes-unique_from kept xs x,
  includes-unique_from (kept ++ y ∷ []) xs x,
  any-append (λ z. z == x) kept (y ∷ []),
  λ (e : (y == x) ≡ true). ap (λ z. includes kept z) (==-sound y x e),
)

-- Where display fields are chosen, what is saved for a user and an index is read back, without
-- repeated fields and with no field lost or added, and what is saved for another user or another
-- index stays as it was.
pub get-put_preferences :
    (user_id index_id user_id' index_id' : Text) (fields : List Text) (input : Preferences)
    (rows : Dict PrefKey Preferences)
    → input.display_fields ≡ some fields
    → (get_preferences user_id index_id (put_preferences user_id index_id input rows).1
        ≡ record input { display_fields = some (unique_from [] fields) })
      × (((x : Text) → includes (unique_from [] fields) x ≡ includes fields x)
          × (pref_same (user_id, index_id) (user_id', index_id') ≡ false
              → get_preferences user_id' index_id' (put_preferences user_id index_id input rows).1
                ≡ get_preferences user_id' index_id' rows))
unfolding get_preferences put_preferences
get-put_preferences user_id index_id user_id' index_id' fields input rows e = (
  ap (λ o. Option.get_or o default_preferences)
        (Dict.get-set_self rows (user_id, index_id) (stored input))
      ∙ (λ i. record {
        display_fields = Option.map (unique_from []) (e i);
        line_wrap = input.line_wrap;
        display_mode = input.display_mode;
      }),
  (
    λ x. includes-unique_from [] fields x,
    λ apart.
        ap (λ o. Option.get_or o default_preferences)
          (Dict.get-set_ne rows (stored input)
            (λ same. cc (apart, (pref_same_iff (user_id, index_id) (user_id', index_id')).1 same))),
  ),
)
