-- ===== src/Time.antt =====
-- The widths of histogram buckets: apps/api/src/lib/time.ts, and `intervalSeconds` and `withinBucketCap`
-- of apps/api/src/schemas/services.ts, which read on the server what the web side has written.
use rootprint.Common.{
  ℕ, ◌*◌, ◌/◌, ◌%◌, ◌≤◌, ◌<◌, ◌≡◌, refl, sym, ap, ◌∙◌, inl, inr, Text, codes, nat_eq, ◌==◌, Bool,
  true, false, Bool-cases, Option, none, some, List, [], ◌∷◌, ◌++◌, if◌then◌else◌, find, leb,
  leb→le, arith, subst, All, All-imp,
}
use mathlib.Core.Option
use rootprint.Common.Sort.{Ascending, sort, insert, sort-Ascending}

-- `String(n)` and `Number(s)` on whole numbers: a number is read back from how it is printed.
pub record Numerals : Type 0 where
  pub show : ℕ → Text
  pub read : Text → ℕ
  pub read-show : (n : ℕ) → read (show n) ≡ n

abbrev pub widths : List ℕ
widths =
    1 ∷ 5 ∷ 10 ∷ 15 ∷ 30 ∷ 60 ∷ 120 ∷ 300 ∷ 600 ∷ 900 ∷ 1800 ∷ 3600 ∷ 7200 ∷ 10800 ∷ 21600 ∷ 43200
    ∷ 86400 ∷ 604800 ∷ []

abbrev target_buckets : ℕ
target_buckets = 60

abbrev keeps_target : ℕ → ℕ → Bool
keeps_target range s = leb range (target_buckets * s)

-- `rangeSeconds / s <= 60`, multiplied out.
unfoldable pub bucket_seconds : ℕ → ℕ
bucket_seconds range = Option.get_or (find (keeps_target range) widths) 604800

found-All :
    (P : ℕ → Type 0) (range d : ℕ) (ws : List ℕ)
    → All P ws
    → P d
    → P (Option.get_or (find (keeps_target range) ws) d)
found-All P range d [] h k = k
found-All P range d (w ∷ ws) (p, h) k = elim (Bool-cases (keeps_target range w)) [
  | inl e ↦ rw e p
  | inr e ↦ rw e (found-All P range d ws h k)
]

found-keeps :
    (range d : ℕ) (ws : List ℕ)
    → range ≤ 60 * d
    → range ≤ 60 * Option.get_or (find (keeps_target range) ws) d
found-keeps range d [] h = h
found-keeps range d (w ∷ ws) h = elim (Bool-cases (keeps_target range w)) [
  | inl e ↦ rw e (leb→le range (60 * w) e)
  | inr e ↦ rw e (found-keeps range d ws h)
]

found-here :
    (range d w : ℕ) (ws : List ℕ)
    → keeps_target range w ≡ true
    → Option.get_or (find (keeps_target range) (w ∷ ws)) d ≡ w
found-here range d w ws e = rw e refl

found-later :
    (range d w : ℕ) (ws : List ℕ)
    → keeps_target range w ≡ false
    → Option.get_or (find (keeps_target range) (w ∷ ws)) d
      ≡ Option.get_or (find (keeps_target range) ws) d
found-later range d w ws e = rw e refl

found-least :
    (range d : ℕ) (ws : List ℕ)
    → Ascending (λ w. w) ws
    → All (λ w. range ≤ 60 * w → Option.get_or (find (keeps_target range) ws) d ≤ w) ws
found-least range d [] h = tt
found-least range d (w ∷ ws) (p, h) = elim (Bool-cases (keeps_target range w)) [
  | inl e ↦
      let here = found-here range d w ws e in
      (λ _. omega (arith, here), All-imp ws (λ v le _. omega (arith, here, le)) p)
  | inr e ↦ (
    λ k. absurd (ground (arith, e, k)),
    subst (λ b. All (λ v. range ≤ 60 * v → b ≤ v) ws) (sym (found-later range d w ws e))
        (found-least range d ws h),
  )
]

bucket_seconds-pos : (range : ℕ) → 0 < bucket_seconds range
unfolding bucket_seconds
bucket_seconds-pos range = found-All (λ w. 0 < w) range 604800 widths (grind arith) (omega arith)

bucket_seconds-keeps : (range : ℕ) → range ≤ 60 * 604800 → range ≤ 60 * bucket_seconds range
unfolding bucket_seconds
bucket_seconds-keeps range h = found-keeps range 604800 widths h

bucket_seconds-least : (range : ℕ) → All (λ w. range ≤ 60 * w → bucket_seconds range ≤ w) widths
unfolding bucket_seconds sort insert
bucket_seconds-least range = found-least range 604800 widths (sort-Ascending (λ w. w) widths)

-- `value.at(-1)`, and `value.slice(0, -1)`
abbrev last_of : Text → Option ℕ
last_of [] = none
last_of (c ∷ []) = some c
last_of (c ∷ d ∷ s) = last_of (d ∷ s)

abbrev without_last : Text → Text
without_last [] = []
without_last (c ∷ []) = []
without_last (c ∷ d ∷ s) = c ∷ without_last (d ∷ s)

last_of-append : (s : Text) (c : ℕ) → last_of (s ++ c ∷ []) ≡ some c
last_of-append [] c = refl
last_of-append (d ∷ []) c = refl
last_of-append (d ∷ e ∷ s) c = last_of-append (e ∷ s) c

without_last-append : (s : Text) (c : ℕ) → without_last (s ++ c ∷ []) ≡ s
without_last-append [] c = refl
without_last-append (d ∷ []) c = refl
without_last-append (d ∷ e ∷ s) c = ap (λ r. d ∷ r) (without_last-append (e ∷ s) c)

unit_seconds : Option ℕ → ℕ
unit_seconds none = 1
unit_seconds (some c) =
    if c == b'd' then 86400 else if c == b'h' then 3600 else if c == b'm' then 60 else 1

abbrev max_buckets : ℕ
max_buckets = 2000

module _ (num : Numerals) where
  unfoldable pub format_interval : ℕ → Text
  format_interval seconds =
      if seconds == 0
      then codes "1s"
      else if seconds % 86400 == 0
      then num.show (seconds / 86400) ++ b'd' ∷ []
      else if seconds % 3600 == 0
      then num.show (seconds / 3600) ++ b'h' ∷ []
      else if seconds % 60 == 0
      then num.show (seconds / 60) ++ b'm' ∷ []
      else num.show seconds ++ b's' ∷ []

  unfoldable pub interval_seconds : Text → ℕ
  unfolding unit_seconds
  interval_seconds value = num.read (without_last value) * unit_seconds (last_of value)

  unfoldable pub within_bucket_cap : ℕ → Text → Bool
  unfolding interval_seconds
  within_bucket_cap range interval = leb range (max_buckets * interval_seconds interval)

  interval_seconds-append :
      (n c : ℕ) → interval_seconds (num.show n ++ c ∷ []) ≡ n * unit_seconds (some c)
  unfolding interval_seconds
  interval_seconds-append n c =
      rw (last_of-append (num.show n) c, without_last-append (num.show n) c, num.read-show n) refl

  -- A width of at least a second is read back by the server from the interval that `formatInterval` writes,
  -- given that numbers are read back from how they are printed.
  pub interval_seconds-format_interval :
      (seconds : ℕ) → 0 < seconds → interval_seconds (format_interval seconds) ≡ seconds
  unfolding format_interval unit_seconds
  interval_seconds-format_interval s h = elim (Bool-cases (s == 0)) [
    | inl e ↦ absurd (ground (arith, e, h))
    | inr e ↦ rw e (elim (Bool-cases (s % 86400 == 0)) [
      | inl d ↦ rw d (interval_seconds-append (s / 86400) b'd' ∙ ground (arith, d))
      | inr d ↦ rw d (elim (Bool-cases (s % 3600 == 0)) [
        | inl k ↦ rw k (interval_seconds-append (s / 3600) b'h' ∙ ground (arith, k))
        | inr k ↦ rw k (elim (Bool-cases (s % 60 == 0)) [
          | inl m ↦ rw m (interval_seconds-append (s / 60) b'm' ∙ ground (arith, m))
          | inr m ↦ rw m (interval_seconds-append s b's' ∙ omega arith)
        ])
      ])
    ])
  ]

  -- For a range of at most 60 weeks, the width that `bucketSeconds` picks makes 60 buckets or fewer, no other
  -- width of the list that does so is smaller, the server reads the width back from its interval, and its cap on
  -- buckets takes that interval, given that numbers are read back from how they are printed.
  pub bucket_seconds-bounds :
      (range : ℕ)
      → range ≤ 60 * 604800
      → (range ≤ 60 * bucket_seconds range)
        × All (λ w. range ≤ 60 * w → bucket_seconds range ≤ w) widths
        × (interval_seconds (format_interval (bucket_seconds range)) ≡ bucket_seconds range)
        × (within_bucket_cap range (format_interval (bucket_seconds range)) ≡ true)
  unfolding within_bucket_cap
  bucket_seconds-bounds range h = (
    bucket_seconds-keeps range h,
    bucket_seconds-least range,
    interval_seconds-format_interval (bucket_seconds range) (bucket_seconds-pos range),
    rw (interval_seconds-format_interval (bucket_seconds range) (bucket_seconds-pos range))
        (ground (arith, bucket_seconds-keeps range h)),
  )
