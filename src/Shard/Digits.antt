-- ===== src/Shard/Digits.antt =====
-- Division with remainder by an arbitrary number.
use asystem_astate.Base.{ℕ, zero, suc, ◌+◌, ◌*◌, ◌/◌, ◌%◌, ◌≤◌, ◌<◌, ◌≡◌, arith, inl, inr, ap, ◌⊎◌}
use native.Mathlib.Nat.{mod-lt, div-add-mod, div-lt_iff_lt-mul}

pub mul_step : (n q r : ℕ) → q < r → n * q + n ≤ n * r
mul_step n q zero h = omega arith
mul_step n q (suc r) h = elim (split q r h) [
  | inl e ↦ grind (arith, e)
  | inr k ↦ grind (arith, mul_step n q r k)
]
  where
    split : (q r : ℕ) → q < suc r → (q ≡ r) ⊎ (q < r)
    split q r h = omega arith

-- A number has one remainder and one quotient.
pub digits : (n c d q r : ℕ) → c < n → d < n → c + n * q ≡ d + n * r → (c ≡ d) × (q ≡ r)
digits n c d q r hc hd e = elim (trichotomy q r) [
  | inl k ↦ absurd (omega (arith, mul_step n q r k, hc, hd, e))
  | inr (inl k) ↦ absurd (omega (arith, mul_step n r q k, hc, hd, e))
  | inr (inr k) ↦ (omega (arith, e, ap (λ (x : ℕ). n * x) k), k)
]
  where
    trichotomy : (q r : ℕ) → (q < r) ⊎ (r < q) ⊎ (q ≡ r)
    trichotomy q r = omega arith

pub positive : (a n q : ℕ) → a < n * q → zero < n
positive a zero q h = omega arith
positive a (suc n) q h = omega arith

pub rem-lt : (a n q : ℕ) → a < n * q → a % n < n
rem-lt a n q h = mod-lt a (positive a n q h)

pub rem-add : (a n : ℕ) → a % n + n * (a / n) ≡ a
rem-add a n = omega (arith, div-add-mod a n)

pub quot-lt : (a n q : ℕ) → a < n * q → a / n < q
quot-lt a n q h = (div-lt_iff_lt-mul (positive a n q h)).1 (grind (arith, h))

-- The remainder and the quotient of a number that is given by them.
pub rem_quot : (n c q : ℕ) → c < n → ((c + n * q) % n ≡ c) × ((c + n * q) / n ≡ q)
rem_quot n c q h =
    digits n ((c + n * q) % n) c ((c + n * q) / n) q (mod-lt (c + n * q) (omega (arith, h))) h
      (rem-add (c + n * q) n)
