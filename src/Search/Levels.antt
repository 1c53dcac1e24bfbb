-- ===== src/Search/Levels.antt =====
-- The levels that the log search lists, `#computeLevelTotals` and `#mergeLevels` of
-- apps/web/src/lib/components/logs/search.svelte.ts. An object is the list of its entries in the order of
-- insertion, which holds for names that are no array indices.
use rootprint.Common.{
  ℕ, ◌+◌, Text, text_eq, ◌≡◌, refl, sym, ap, take, length, not, Option, some, List, [], ◌∷◌, ◌++◌,
  map, filter, includes, All, All-append, All-filter,
}
use mathlib.Core.Option
use rootprint.Common.Dict
use rootprint.Common.Dict.{Dict}

-- `count` is null for a level that the last histogram did not have.
pub record LevelBucket : Type 0 where
  pub name : Text
  pub count : Option ℕ

add_levels : Dict Text ℕ → Dict Text ℕ → Dict Text ℕ
unfolding Dict.get Dict.set
add_levels totals [] = totals
add_levels totals ((name, count) ∷ levels) =
    add_levels (Dict.set totals name (Option.get_or (Dict.get totals name) 0 + count)) levels

-- The argument is the `levels` of each bucket of the histogram.
pub compute_level_totals : Dict Text ℕ → List (Dict Text ℕ) → Dict Text ℕ
unfolding add_levels
compute_level_totals totals [] = totals
compute_level_totals totals (b ∷ buckets) = compute_level_totals (add_levels totals b) buckets

abbrev bucket : Text × ℕ → LevelBucket
bucket (name, count) = record { name = name; count = some count }

abbrev updated : Dict Text ℕ → LevelBucket → LevelBucket
updated fresh p = record { name = p.name; count = Dict.get fresh p.name }

-- The levels of the histogram that are new to the list.
abbrev newcomers : List LevelBucket → Dict Text ℕ → Dict Text ℕ
newcomers prev fresh = filter (λ f. not (includes (map (λ p. p.name) prev) f.0)) fresh

pub merge_levels : List LevelBucket → Dict Text ℕ → List LevelBucket
merge_levels prev fresh = map (updated fresh) prev ++ map bucket (newcomers prev fresh)

-- A level shows what the last histogram counts for it, or nothing.
abbrev pub IsCurrent : Dict Text ℕ → LevelBucket → Type 0
IsCurrent fresh l = l.count ≡ Dict.get fresh l.name

updated-IsCurrent :
    (fresh : Dict Text ℕ) (prev : List LevelBucket)
    → All (IsCurrent fresh) (map (updated fresh) prev)
updated-IsCurrent fresh [] = tt
updated-IsCurrent fresh (p ∷ prev) = (refl, updated-IsCurrent fresh prev)

bucket-IsCurrent :
    (fresh entries : Dict Text ℕ)
    → All (λ x. Dict.get fresh x.0 ≡ some x.1) entries
    → All (IsCurrent fresh) (map bucket entries)
bucket-IsCurrent fresh [] h = tt
bucket-IsCurrent fresh ((name, count) ∷ entries) (p, h) = (sym p, bucket-IsCurrent fresh entries h)

take-updated :
    (fresh : Dict Text ℕ) (prev new : List LevelBucket)
    → take (length prev) (map (λ l. l.name) (map (updated fresh) prev ++ new))
      ≡ map (λ l. l.name) prev
take-updated fresh [] new = refl
take-updated fresh (p ∷ prev) new = ap (λ r. p.name ∷ r) (take-updated fresh prev new)

add_levels-NoDup :
    (totals levels : Dict Text ℕ) → Dict.NoDup totals → Dict.NoDup (add_levels totals levels)
unfolding add_levels
add_levels-NoDup totals [] h = h
add_levels-NoDup totals ((name, count) ∷ levels) h =
    add_levels-NoDup (Dict.set totals name (Option.get_or (Dict.get totals name) 0 + count)) levels
      (Dict.set-NoDup totals name _ h)

compute_level_totals-NoDup :
    (totals : Dict Text ℕ) (buckets : List (Dict Text ℕ))
    → Dict.NoDup totals
    → Dict.NoDup (compute_level_totals totals buckets)
unfolding compute_level_totals
compute_level_totals-NoDup totals [] h = h
compute_level_totals-NoDup totals (b ∷ buckets) h =
    compute_level_totals-NoDup (add_levels totals b) buckets (add_levels-NoDup totals b h)

-- The levels on screen all show the totals of the last histogram, those it lacks show none, and the
-- old ones keep their places in front of the new ones.
pub merge_levels-IsCurrent :
    (prev : List LevelBucket) (buckets : List (Dict Text ℕ))
    → All
        (IsCurrent (compute_level_totals [] buckets))
        (merge_levels prev (compute_level_totals [] buckets))
      × (take
            (length prev)
            (map (λ l. l.name) (merge_levels prev (compute_level_totals [] buckets)))
          ≡ map (λ l. l.name) prev)
unfolding merge_levels
merge_levels-IsCurrent prev buckets =
    let fresh = compute_level_totals [] buckets in
    (
      All-append (IsCurrent fresh) (map (updated fresh) prev) (map bucket (newcomers prev fresh))
          (updated-IsCurrent fresh prev)
          (bucket-IsCurrent fresh (newcomers prev fresh) (
            All-filter (λ x. Dict.get fresh x.0 ≡ some x.1) _ fresh
              (Dict.NoDup-get fresh (compute_level_totals-NoDup [] buckets tt)))),
      take-updated fresh prev (map bucket (newcomers prev fresh)),
    )
