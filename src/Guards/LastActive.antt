-- ===== src/Guards/LastActive.antt =====
-- How often the guard writes when a user was last active.
use rootprint.Common.{
  ℕ, ◌+◌, ◌-◌, ◌≤◌, ◌≡◌, inl, inr, ap, Text, text_eq, ◌==◌, ==-sound, true, false, Bool-cases, List,
  [], ◌∷◌, leb, arith, All,
}
use mathlib.Core.Option
use rootprint.Common.Dict
use rootprint.Guards.{LastActive, last_active_throttle_ms, last_seen, bump_last_active}

-- The requests of users at their times, one after the other.
pub bumps : List (ℕ × Text) → LastActive → LastActive
bumps [] seen = seen
bumps ((now, user_id) ∷ rest) seen = bumps rest (bump_last_active now user_id seen).1

last_seen-bump :
    (now t : ℕ) (user_id other : Text) (seen : LastActive)
    → t ≤ now + last_active_throttle_ms
    → last_seen seen user_id ≡ now
    → last_seen (bump_last_active t other seen).1 user_id ≡ now
unfolding bump_last_active
last_seen-bump now t user_id other seen le h =
    elim (Bool-cases (leb (t - last_seen seen other) last_active_throttle_ms)) [
      | inl e ↦ rw e h
      | inr e ↦ rw e (elim (Bool-cases (other == user_id)) [
        | inl same ↦
            absurd (ground (arith, e, ap (last_seen seen) (==-sound other user_id same), h, le))
        | inr apart ↦ ground (arith, Dict.get-set seen other t user_id, apart, h)
      ])
    ]

last_seen-bumps :
    (now : ℕ) (user_id : Text) (rest : List (ℕ × Text)) (seen : LastActive)
    → All (λ b. b.0 ≤ now + last_active_throttle_ms) rest
    → last_seen seen user_id ≡ now
    → last_seen (bumps rest seen) user_id ≡ now
unfolding bumps
last_seen-bumps now user_id [] seen h e = e
last_seen-bumps now user_id ((t, other) ∷ rest) seen (p, h) e =
    last_seen-bumps now user_id rest (bump_last_active t other seen).1 h
      (last_seen-bump now t user_id other seen p e)

-- Once a request has written that a user was active, no request of that user writes it again within the five minutes
-- after it, whatever requests of others and of that user come in between.
pub bump_last_active-once :
    (now t : ℕ) (user_id : Text) (rest : List (ℕ × Text)) (seen : LastActive)
    → (bump_last_active now user_id seen).0 ≡ true
    → All (λ b. b.0 ≤ now + last_active_throttle_ms) rest
    → t ≤ now + last_active_throttle_ms
    → (bump_last_active t user_id (bumps rest (bump_last_active now user_id seen).1)).0 ≡ false
unfolding bump_last_active
bump_last_active-once now t user_id rest seen wrote between le =
    elim (Bool-cases (leb (now - last_seen seen user_id) last_active_throttle_ms)) [
      | inl e ↦ cc (rw e at wrote)
      | inr e ↦ rw e (
          let kept =
            last_seen-bumps now user_id rest (Dict.set seen user_id now) between
              (ap (λ o. Option.get_or o 0) (Dict.get-set_self seen user_id now)) in
          ground (arith, kept, le))
    ]
