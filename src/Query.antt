-- ===== src/Query.antt =====
-- The query that the search backend gets: apps/api/src/lib/quickwit/query.ts.
pub mod Escape
use rootprint.Common.{
  ℕ, Text, codes, text_eq, nat_eq, ◌==◌, Bool, not, ◌&&◌, ◌||◌, Option, none, some, List, [], ◌∷◌,
  ◌++◌, if◌then◌else◌, any, includes, is_empty, is_space, trim, join, map,
}
use rootprint.Common.Dict
use rootprint.Common.Dict.{Dict}
use rootprint.Url.{Filter}

-- `ESCAPE_TRIGGER_RE`
pub is_trigger : ℕ → Bool
unfolding is_space
is_trigger c = is_space c || includes (codes ":()[]{}!+-~^\"\\*?/&|<>=") c

-- `value.replaceAll(c, by)` for a single character
pub replace_all : ℕ → Text → Text → Text
replace_all c by [] = []
replace_all c by (x ∷ s) = let rest = replace_all c by s in if x == c then by ++ rest else x ∷ rest

abbrev pub backslash : ℕ
backslash = 92

abbrev pub quote : ℕ
quote = 34

pub quoted_body : Text → Text
unfolding replace_all
quoted_body value =
    replace_all quote (backslash ∷ quote ∷ [])
      (replace_all backslash (backslash ∷ backslash ∷ []) value)

unfoldable pub escape_filter_value : Text → Text
unfolding is_trigger quoted_body
escape_filter_value value =
    if any is_trigger value then quote ∷ (quoted_body value ++ quote ∷ []) else value

pub record Values : Type 0 where
  pub includes : List Text
  pub excludes : List Text

abbrev add_value : Option Values → Filter → Values
add_value none f =
    if f.exclude
    then record { includes = []; excludes = f.value ∷ [] }
    else record { includes = f.value ∷ []; excludes = [] }
add_value (some v) f =
    if f.exclude
    then record v { excludes = v.excludes ++ f.value ∷ [] }
    else record v { includes = v.includes ++ f.value ∷ [] }

-- The fields in the order in which the filters name them first.
pub by_field : Dict Text Values → List Filter → Dict Text Values
unfolding Dict.get Dict.set
by_field groups [] = groups
by_field groups (f ∷ filters) =
    by_field (Dict.set groups f.field (add_value (Dict.get groups f.field) f)) filters

term : Text → Text → Text
unfolding escape_filter_value
term field value = field ++ b':' ∷ escape_filter_value value

include_clauses : Text → List Text → List Text
unfolding term join
include_clauses field [] = []
include_clauses field (v ∷ []) = term field v ∷ []
include_clauses field vs = (b'(' ∷ (join (codes " OR ") (map (term field) vs) ++ b')' ∷ [])) ∷ []

field_clauses : Dict Text Values → List Text
unfolding include_clauses
field_clauses [] = []
field_clauses ((field, v) ∷ groups) =
    include_clauses field v.includes
    ++ (map (λ x. codes "NOT " ++ term field x) v.excludes ++ field_clauses groups)

unfoldable pub compose_query : Text → List Filter → Text
unfolding by_field field_clauses trim
compose_query text filters =
    let trimmed = trim text in
    let has_text = not (is_empty trimmed) && not (trimmed == codes "*") in
    let joined = join (codes " AND ") (field_clauses (by_field [] filters)) in
    if is_empty filters
    then (if has_text then text else codes "*")
    else if has_text
    then b'(' ∷ (text ++ codes ") AND " ++ joined)
    else joined
