-- ===== src/Retry/Pauses.antt =====
-- `TimeoutRetry` and `ExponentialBackoffRetry`: what their pauses bound.
use asystem_astate.Base.{
  Bool, zero, suc, subst, some-injective, List, [], ◌∷◌, length, ℕ, ◌+◌, ◌*◌, ◌/◌, ◌-◌, ◌^◌, ◌≤◌,
  ◌<◌, min, true, false, leb, none, some, ◌≡◌, refl, sym, arith, Bool-cases, inl, inr, leb→le,
  le→leb, lt→leb,
}
use native.Mathlib.Nat.{mul-le-mul, mul-le-mul_left, le-div_iff_mul-le}
use asystem_astate.Retry.Timeout.{TimeoutRetry, timeout_retry, timeout_attempt, get_sleep_time}

-- All attempts are granted, at these readings of the clock.
abbrev pub AreGranted : List ℕ → TimeoutRetry → Type 0
AreGranted [] p = Unit
AreGranted (now ∷ nows) p =
    ((timeout_attempt now p).0 ≡ true) × AreGranted nows (timeout_attempt now p).2

-- The pause of each attempt lies between the reading before it and its own.
abbrev pub IsPaced : ℕ → List ℕ → TimeoutRetry → Type 0
IsPaced last [] p = Unit
IsPaced last (now ∷ nows) p =
    (last + (timeout_attempt now p).1 * 1000000 ≤ now) × IsPaced now nows (timeout_attempt now p).2

later : TimeoutRetry → TimeoutRetry
later p = record p { attempt_count = p.attempt_count + 1 }

-- An attempt after the first that is granted comes before the timeout, and keeps the start.
granted-later :
    (p : TimeoutRetry) (now : ℕ)
    → p.first_attempt ≡ false
    → (timeout_attempt now p).0 ≡ true
    → (timeout_attempt now p ≡ (true, p.sleep_ms, later p))
      × ((now - p.start_time) / 1000000 ≤ p.retry_timeout_ms)
unfolding timeout_attempt later
granted-later p now f g =
    elim (Bool-cases (leb ((now - p.start_time) / 1000000) p.retry_timeout_ms)) [
      | inl e ↦ (rw (f, e) refl, leb→le ((now - p.start_time) / 1000000) p.retry_timeout_ms e)
      | inr e ↦ absurd (ground (arith, rw (f, e) at g))
    ]

-- After `k` pauses.
pauses_bounded :
    (nows : List ℕ) (p : TimeoutRetry) (last k : ℕ)
    → p.first_attempt ≡ false
    → p.start_time + k * p.sleep_ms * 1000000 ≤ last
    → k * p.sleep_ms ≤ p.retry_timeout_ms
    → IsPaced last nows p
    → AreGranted nows p
    → (k + length nows) * p.sleep_ms ≤ p.retry_timeout_ms
unfolding later
pauses_bounded [] p last k f l b h g = grind (arith, b)
pauses_bounded (now ∷ nows) p last k f l b (paced, h) (granted, g) =
    let (e, elapsed) = granted-later p now f granted in
    let paused : last + p.sleep_ms * 1000000 ≤ now =
      subst (λ (r : Bool × ℕ × TimeoutRetry). last + r.1 * 1000000 ≤ now) e paced in
    let l' : p.start_time + (k + 1) * p.sleep_ms * 1000000 ≤ now = grind (arith, l, paused) in
    let enough : (k + 1) * p.sleep_ms ≤ (now - p.start_time) / 1000000 =
      (le-div_iff_mul-le {k = 1000000} {x = (k + 1) * p.sleep_ms} {y = now - p.start_time}
          (omega arith)).1
        (omega (arith, l')) in
    let rest =
      pauses_bounded nows (later p) now (k + 1) f l' (omega (arith, enough, elapsed))
        (subst (λ (r : Bool × ℕ × TimeoutRetry). IsPaced now nows r.2) e h)
        (subst (λ (r : Bool × ℕ × TimeoutRetry). AreGranted nows r.2) e g) in
    subst (λ n. n * p.sleep_ms ≤ p.retry_timeout_ms) (omega arith) rest

-- If a new TimeoutRetry makes attempts at successive readings of a clock, each at least the
-- attempt's pause after the one before, and all are granted, then the number of attempts after the
-- first, times sleep_ms, is at most the timeout.
pub timeout_retry-pauses :
    (retry_timeout_ms sleep_ms : ℕ) (p : TimeoutRetry) (start : ℕ) (nows : List ℕ)
    → timeout_retry retry_timeout_ms sleep_ms ≡ some p
    → IsPaced 0 (start ∷ nows) p
    → AreGranted (start ∷ nows) p
    → length nows * sleep_ms ≤ retry_timeout_ms
unfolding timeout_retry timeout_attempt
timeout_retry-pauses zero sleep_ms p start nows e h g = absurd (ground (arith, e))
timeout_retry-pauses (suc n) sleep_ms p start nows e h g =
    let new : TimeoutRetry = record {
      retry_timeout_ms = suc n;
      sleep_ms = sleep_ms;
      attempt_count = 0;
      first_attempt = true;
      start_time = 0;
    } in
    let same : p ≡ new = sym (some-injective _ _ e) in
    subst (λ k. k * sleep_ms ≤ suc n) (add_zero (length nows))
      (pauses_bounded nows
        (record new { start_time = start; attempt_count = 1; first_attempt = false }) start 0 refl
        (omega arith) (omega arith) (subst (λ q. IsPaced 0 (start ∷ nows) q) same h).1
        (subst (λ q. AreGranted (start ∷ nows) q) same g).1)
  where
    add_zero : (k : ℕ) → 0 + k ≡ k
    add_zero k = omega arith

-- Where the product fits an `int` and the random number is at least `2 ^ count`, the pause after
-- `count` attempts is at least `base * 2 ^ count`, or `max_sleep_ms` if that is less, and never more
-- than `max_sleep_ms`.
pub get_sleep_time-bounds :
    (base cap count draw : ℕ)
    → 2 ^ count ≤ draw
    → base * draw < 2 ^ 31
    → (ms : ℕ) × (get_sleep_time base cap count draw ≡ some ms)
      × (min (base * 2 ^ count) cap ≤ ms)
      × (ms ≤ cap)
unfolding get_sleep_time
get_sleep_time-bounds base cap count draw l b = elim (Bool-cases (leb 30 count)) [
  | inl e ↦ rw e (cap, refl, omega arith, omega arith)
  | inr e ↦
      rw (e, lt→leb (base * draw) (2 ^ 31) b)
        (
          min (base * draw) cap,
          refl,
          below (base * 2 ^ count) (base * draw) (mul-le-mul_left base l),
          omega arith,
        )
]
  where
    below : (a b : ℕ) → a ≤ b → min a cap ≤ min b cap
    below a b h = omega (arith, h)

-- With a base of 4 milliseconds or more the product is too large for an `int` after 29 attempts,
-- which the test for 30 attempts lets through.
pub get_sleep_time_overflows :
    (base cap draw : ℕ) → 4 ≤ base → 2 ^ 29 ≤ draw → get_sleep_time base cap 29 draw ≡ none
unfolding get_sleep_time
get_sleep_time_overflows base cap draw h l =
    rw
      (le→leb (2 ^ 31) (base * draw)
        (mul-le-mul {n₁ = 4} {m₁ = 2 ^ 29} {n₂ = base} {m₂ = draw} h l))
      refl
