-- ===== src/Retry/Deadline.antt =====
-- `TimeBoundedRetry` and `ExponentialTimeBoundedRetry`: the deadline and the pauses.
use asystem_astate.Base.{
  ℕ, zero, suc, ◌+◌, ◌*◌, ◌^◌, ◌≤◌, ◌<◌, min, Bool, true, false, ltb, some, ◌≡◌, ◌≢◌, ◌⊎◌, inl, inr,
  refl, ◌∙◌, ap, arith, List, [], ◌∷◌, length, All, get_elem?, Bool-cases, ltb→lt, ltb→le,
}
use native.Mathlib.Nat.{div-eq_of_lt, one-le-pow, mul-le-mul_right, le-mul_of_pos_right, pow-suc}
use asystem_astate.Retry.Backoff.{TimeBounded, compute_next_wait_time}

-- What an attempt may do at time `now`: the first is granted at once; later ones are refused from the
-- deadline on, and before it are granted after a pause that ends by then.
abbrev pub Timely : ℕ → TimeBounded → Bool × ℕ × TimeBounded → Type 0
Timely now p r =
    ((p.attempt_count ≡ 0) × (r.0 ≡ true) × (r.1 ≡ 0))
    ⊎ ((p.attempt_count ≢ 0) × (p.end_time ≤ now) × (r.0 ≡ false))
    ⊎ ((p.attempt_count ≢ 0)
        × (now < p.end_time)
        × (r.0 ≡ true)
        × (now + r.1 * 1000000 ≤ p.end_time))

-- The pauses that `ComputeNextWaitTime` gives, one call after the other, for the random ratios.
abbrev pub pauses : List ℕ → TimeBounded → List ℕ
pauses [] p = []
pauses (ratio ∷ ratios) p =
    (compute_next_wait_time ratio p).0 ∷ pauses ratios (compute_next_wait_time ratio p).1

two_pow : (k : ℕ) → 0 < 2 ^ k
two_pow k = one-le-pow k 2 (omega arith)

-- The pause after one that would be doubled beyond the cap, and after one that would not.
capped : (n m k : ℕ) → m < n * 2 → min (m * 2 ^ k) m ≡ min (n * 2 ^ suc k) m
capped n m k h =
    let below = mul-le-mul_right {m = m} {n = n * 2} (2 ^ k) (omega (arith, h)) in
    let twice = ap (λ (x : ℕ). n * x) (pow-suc 2 k) in
    let grows = le-mul_of_pos_right m (two_pow k) in
    at_cap (m * 2 ^ k) (n * 2 ^ suc k) grows (grind (arith, below, twice, grows))
  where
    at_cap : (a b : ℕ) → m ≤ a → m ≤ b → min a m ≡ min b m
    at_cap a b l g = omega (arith, l, g)

doubled : (n m k : ℕ) → min (n * 2 * 2 ^ k) m ≡ min (n * 2 ^ suc k) m
doubled n m k = rw (pow-suc 2 k) (ap (λ (x : ℕ). min x m) (grind arith))

-- Without the skipped first pause, and with a first pause of at most max_sleep, the pauses that
-- ComputeNextWaitTime gives are the first one times 2 ^ k, capped at max_sleep, for all random
-- ratios below 1.
pub pauses-get_elem? :
    (ratios : List ℕ) (p : TimeBounded) (k : ℕ)
    → All (λ (r : ℕ). r < 2 ^ 53) ratios
    → p.skip_initial_sleep ≡ false
    → p.next_sleep ≤ p.max_sleep
    → k < length ratios
    → get_elem? (pauses ratios p) k ≡ some (min (p.next_sleep * 2 ^ k) p.max_sleep)
unfolding compute_next_wait_time
pauses-get_elem? [] p k h s l b = absurd (omega (arith, b))
pauses-get_elem? (r ∷ ratios) p zero h s l b =
    rw s (ap some (rw (div-eq_of_lt h.0) (omega (arith, l))))
pauses-get_elem? (r ∷ ratios) p (suc k) h s l b =
    rw s (elim (Bool-cases (ltb p.max_sleep (p.next_sleep * 2))) [
      | inl e ↦ rw e (
          pauses-get_elem? ratios
            (record p { next_sleep = p.max_sleep; skip_initial_sleep = false }) k h.1 refl
            (omega arith) (omega (arith, b))
          ∙ ap some (capped p.next_sleep p.max_sleep k (ltb→lt p.max_sleep (p.next_sleep * 2) e)))
      | inr e ↦ rw e (
          pauses-get_elem? ratios
            (record p { next_sleep = p.next_sleep * 2; skip_initial_sleep = false }) k h.1 refl
            (ltb→le p.max_sleep (p.next_sleep * 2) e) (omega (arith, b))
          ∙ ap some (doubled p.next_sleep p.max_sleep k))
    ])
