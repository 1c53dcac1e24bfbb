-- ===== src/Trace/SelfTime/Count.antt =====
-- How many instants below a bound satisfy a test.
use native.Mathlib.Decide.{dec_le}
use native.Mathlib.Nat.{add-zero, add-suc}
use rootprint.Common.{
  ℕ, zero, suc, ◌+◌, ◌-◌, ◌<◌, ◌≤◌, ◌≡◌, refl, ap, Bool, true, false, not, ◌&&◌, ◌||◌, arith, ltb,
  leb, if◌then◌else◌,
}

pub count_below : ℕ → (ℕ → Bool) → ℕ
count_below zero p = 0
count_below (suc n) p = (if p n then 1 else 0) + count_below n p

pub count_below-ext :
    (n : ℕ) (p q : ℕ → Bool) → ((t : ℕ) → t < n → p t ≡ q t) → count_below n p ≡ count_below n q
unfolding count_below
count_below-ext zero p q h = refl
count_below-ext (suc n) p q h =
    rw (h n (omega arith), count_below-ext n p q (λ t lt. h t (omega arith)))

-- An interval that ends below the bound counts by its length.
pub count_below-interval :
    (n start end : ℕ) → end ≤ n → count_below n (λ t. leb start t && ltb t end) ≡ end - start
unfolding count_below
count_below-interval zero start end h = omega arith
count_below-interval (suc n) start end h = elim (dec_le end n) [
  | yes le ↦ ground (arith, count_below-interval n start end le)
  | no gt ↦ ground (
    arith,
    count_below-interval n start n,
    count_below-ext n (λ t. leb start t && ltb t end) (λ t. leb start t && ltb t n),
  )
]

-- Tests that never hold together.
pub count_below-or :
    (n : ℕ) (p q : ℕ → Bool)
    → ((t : ℕ) → t < n → p t ≡ true → q t ≡ false)
    → count_below n (λ t. p t || q t) ≡ count_below n p + count_below n q
unfolding count_below
count_below-or zero p q h = refl
count_below-or (suc n) p q h = ground (arith, h n, count_below-or n p q (λ t lt. h t (omega arith)))

pub count_below-not : (n : ℕ) (p : ℕ → Bool) → count_below n (λ t. not (p t)) + count_below n p ≡ n
unfolding count_below
count_below-not zero p = refl
count_below-not (suc n) p = ground (arith, count_below-not n p)

pub count_below-none :
    (n : ℕ) (p : ℕ → Bool) → ((t : ℕ) → t < n → p t ≡ false) → count_below n p ≡ 0
unfolding count_below
count_below-none zero p h = refl
count_below-none (suc n) p h =
    rw (h n (omega arith)) (omega (arith, count_below-none n p (λ t lt. h t (omega arith))))

-- Instants below `lo` that never satisfy the test may be skipped.
pub count_below-shift :
    (lo n : ℕ) (p : ℕ → Bool)
    → ((t : ℕ) → t < lo → p t ≡ false)
    → count_below (lo + n) p ≡ count_below n (λ t. p (lo + t))
unfolding count_below
count_below-shift lo zero p h = rw (add-zero lo) (count_below-none lo p h)
count_below-shift lo (suc n) p h =
    rw (add-suc lo n) (ap (λ r. (if p (lo + n) then 1 else 0) + r) (count_below-shift lo n p h))
