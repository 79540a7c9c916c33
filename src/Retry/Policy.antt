-- ===== src/Retry/Policy.antt =====
-- `CountingRetry`, `CountingAndSleepRetryPolicy` and `SleepingRetry`: policies that count attempts.
use asystem_astate.Base.{
  ℕ, zero, suc, ◌+◌, ◌-◌, ◌*◌, ◌∙◌, ap, ltb, Bool, true, false, leb, ◌==◌, if◌then◌else◌, Option,
  none, some, ◌≡◌, refl, arith, le→leb, lt→leb, lt→ltb, sym, ◌≤◌, Bool-cases, inl, inr, subst,
}

-- An attempt says whether it is granted, and gives the next state of the policy.
abbrev pub Attempt : Type 0 → Type 0
Attempt S = S → Bool × S

-- From state `s` the policy grants `n` attempts and then refuses one.
abbrev pub Grants : {S : Type 0} → Attempt S → ℕ → S → Type 0
Grants attempt zero s = (attempt s).0 ≡ false
Grants attempt (suc n) s = ((attempt s).0 ≡ true) × Grants attempt n (attempt s).1

-- `CountingRetry`; `max_retries_` is not negative.
pub record CountingRetry : Type 0 where
  pub max_retries : ℕ
  pub attempt_count : ℕ

unfoldable pub counting_retry : ℕ → CountingRetry
counting_retry max_retries = record { max_retries = max_retries; attempt_count = 0 }

-- `CountingRetry::Reset`
unfoldable pub counting_reset : CountingRetry → CountingRetry
counting_reset p = record p { attempt_count = 0 }

-- `CountingRetry::Attempt`
unfoldable pub counting_attempt : Attempt CountingRetry
counting_attempt p =
    if leb p.attempt_count p.max_retries
    then (true, record p { attempt_count = p.attempt_count + 1 })
    else (false, p)

-- `CountingAndSleepRetryPolicy`, with the total time that it has slept. A pause that is not positive
-- takes no time, and is 0 here.
pub record CountingAndSleep : Type 0 where
  pub counting : CountingRetry
  pub sleep_ms : ℕ
  pub slept : ℕ

unfoldable pub counting_and_sleep : ℕ → ℕ → CountingAndSleep
counting_and_sleep max_retries sleep_ms = record {
  counting = counting_retry max_retries;
  sleep_ms = sleep_ms;
  slept = 0;
}

-- `CountingAndSleepRetryPolicy::Attempt`
unfoldable pub counting_and_sleep_attempt : Attempt CountingAndSleep
counting_and_sleep_attempt p =
    let r = counting_attempt p.counting in
    if r.0
    then (
      true,
      record p {
        counting = r.1;
        slept = if ltb 1 r.1.attempt_count then p.slept + p.sleep_ms else p.slept;
      },
    )
    else (false, p)

-- `SleepingRetry`, with the total time that it has slept. `GetSleepTime` of the subclass is given the
-- attempt count; it is called for every attempt but the first. `none`: it throws, or `sleep_for` does.
pub record SleepingRetry : Type 0 where
  pub max_retries : ℕ
  pub attempt_count : ℕ
  pub slept : ℕ

-- The constructor throws (`none`) if `max_retries` is not positive.
unfoldable pub sleeping_retry : ℕ → Option SleepingRetry
sleeping_retry zero = none
sleeping_retry (suc n) = some (record { max_retries = suc n; attempt_count = 0; slept = 0 })

-- `SleepingRetry::Attempt`
unfoldable pub sleeping_attempt : (ℕ → Option ℕ) → Attempt SleepingRetry
sleeping_attempt get_sleep_time p =
    if leb p.attempt_count p.max_retries
    then (if p.attempt_count == 0
        then (true, record p { attempt_count = p.attempt_count + 1 })
        else elim (get_sleep_time p.attempt_count) [
          | none ↦ (false, p)
          | some ms ↦ (true, record p { attempt_count = p.attempt_count + 1; slept = p.slept + ms })
        ])
    else (false, p)

-- The state after a number of attempts.
abbrev pub after_attempts : {S : Type 0} → Attempt S → ℕ → S → S
after_attempts attempt zero s = s
after_attempts attempt (suc n) s = after_attempts attempt n (attempt s).1

-- `CountingRetry` grants the attempts that are left.
counting-Grants_left :
    (n : ℕ) (p : CountingRetry)
    → p.attempt_count + n ≡ p.max_retries + 1
    → Grants counting_attempt n p
unfolding counting_attempt
counting-Grants_left zero p e = rw (lt→leb p.max_retries p.attempt_count (omega (arith, e))) refl
counting-Grants_left (suc n) p e = rw (le→leb p.attempt_count p.max_retries (omega (arith, e))) (
  refl,
  counting-Grants_left n (record p { attempt_count = p.attempt_count + 1 }) (omega (arith, e)),
)

paused :
    (count slept sleep_ms : ℕ)
    → slept ≡ (count - 1) * sleep_ms
    → (if ltb 1 (count + 1) then slept + sleep_ms else slept) ≡ count * sleep_ms
paused zero slept sleep_ms s = s
paused (suc n) slept sleep_ms s = rw (lt→ltb 1 (suc n + 1) (omega arith)) (grind (arith, s))

abbrev granted : CountingAndSleep → CountingAndSleep
granted p = record p {
  counting = record p.counting { attempt_count = p.counting.attempt_count + 1 };
  slept = if ltb 1 (p.counting.attempt_count + 1) then p.slept + p.sleep_ms else p.slept;
}

counting_and_sleep_attempt-granted :
    (p : CountingAndSleep)
    → p.counting.attempt_count ≤ p.counting.max_retries
    → counting_and_sleep_attempt p ≡ (true, granted p)
unfolding counting_and_sleep_attempt counting_attempt
counting_and_sleep_attempt-granted p h =
    rw (le→leb p.counting.attempt_count p.counting.max_retries h) refl

-- The pauses of the attempts that are left: one for each attempt but the first.
counting_and_sleep-Grants_left :
    (n : ℕ) (p : CountingAndSleep)
    → p.counting.attempt_count + n ≡ p.counting.max_retries + 1
    → p.slept ≡ (p.counting.attempt_count - 1) * p.sleep_ms
    → Grants counting_and_sleep_attempt n p
      × ((after_attempts counting_and_sleep_attempt n p).slept
          ≡ p.counting.max_retries * p.sleep_ms)
unfolding counting_and_sleep_attempt counting_attempt
counting_and_sleep-Grants_left zero p e s = (
  rw (lt→leb p.counting.max_retries p.counting.attempt_count (omega (arith, e))) refl,
  s ∙ ap (λ (k : ℕ). k * p.sleep_ms) (omega (arith, e)),
)
counting_and_sleep-Grants_left (suc n) p e s =
    subst
      (λ (r : Bool × CountingAndSleep).
        ((r.0 ≡ true) × Grants counting_and_sleep_attempt n r.1)
        × ((after_attempts counting_and_sleep_attempt n r.1).slept
            ≡ p.counting.max_retries * p.sleep_ms))
      (sym (counting_and_sleep_attempt-granted p (omega (arith, e))))
      (let (g, t) = counting_and_sleep-Grants_left n (granted p) (omega (arith, e)) (
          paused p.counting.attempt_count p.slept p.sleep_ms s
          ∙ ap (λ (k : ℕ). k * p.sleep_ms) (omega arith)) in
        ((refl, g), t))

sleeping-Grants_left :
    (get_sleep_time : ℕ → ℕ) (n : ℕ) (p : SleepingRetry)
    → p.attempt_count + n ≡ p.max_retries + 1
    → Grants (sleeping_attempt (λ k. some (get_sleep_time k))) n p
unfolding sleeping_attempt
sleeping-Grants_left g zero p e = rw (lt→leb p.max_retries p.attempt_count (omega (arith, e))) refl
sleeping-Grants_left g (suc n) p e =
    rw (le→leb p.attempt_count p.max_retries (omega (arith, e)))
      (elim (Bool-cases (p.attempt_count == 0)) [
        | inl z ↦ rw z (
          refl,
          sleeping-Grants_left g n (record p { attempt_count = p.attempt_count + 1 })
              (omega (arith, e)),
        )
        | inr z ↦ rw z (
          refl,
          sleeping-Grants_left g n
              (record p {
                attempt_count = p.attempt_count + 1;
                slept = p.slept + g p.attempt_count;
              })
              (omega (arith, e)),
        )
      ])

throws_first :
    (n : ℕ) (throwing : ℕ → Option ℕ)
    → throwing 1 ≡ none
    → Grants
        (sleeping_attempt throwing)
        1
        (record { max_retries = suc n; attempt_count = 0; slept = 0 })
unfolding sleeping_attempt
throws_first n throwing e =
    rw (le→leb 0 (suc n) (omega arith)) (refl, rw (le→leb 1 (suc n) (omega arith), e) refl)

sleeping_retry-Grants :
    (get_sleep_time : ℕ → ℕ) (n : ℕ)
    → (q : SleepingRetry) × (sleeping_retry (suc n) ≡ some q)
      × Grants (sleeping_attempt (λ k. some (get_sleep_time k))) (suc n + 1) q
      × ((throwing : ℕ → Option ℕ) → throwing 1 ≡ none → Grants (sleeping_attempt throwing) 1 q)
unfolding sleeping_retry
sleeping_retry-Grants g n =
    let q : SleepingRetry = record { max_retries = suc n; attempt_count = 0; slept = 0 } in
    (q, refl, sleeping-Grants_left g (suc n + 1) q (omega arith), throws_first n)

-- A new CountingRetry, one after a reset, and a new CountingAndSleepRetryPolicy grant exactly
-- max_retries + 1 attempts; the last has then slept for max_retries pauses. So does a SleepingRetry
-- that the constructor makes for a positive number of retries, if none of its pauses throws; if the
-- first pause throws, it grants exactly one.
pub counting_retry-Grants :
    (p : CountingRetry) (sleep_ms : ℕ) (get_sleep_time : ℕ → ℕ) (n : ℕ)
    → Grants counting_attempt (p.max_retries + 1) (counting_retry p.max_retries)
      × Grants counting_attempt (p.max_retries + 1) (counting_reset p)
      × Grants counting_and_sleep_attempt
          (p.max_retries + 1)
          (counting_and_sleep p.max_retries sleep_ms)
      × ((after_attempts counting_and_sleep_attempt
            (p.max_retries + 1)
            (counting_and_sleep p.max_retries sleep_ms)).slept
          ≡ p.max_retries * sleep_ms)
      × ((q : SleepingRetry) × (sleeping_retry (suc n) ≡ some q)
          × Grants (sleeping_attempt (λ k. some (get_sleep_time k))) (suc n + 1) q
          × ((throwing : ℕ → Option ℕ)
              → throwing 1 ≡ none
              → Grants (sleeping_attempt throwing) 1 q))
unfolding counting_retry counting_reset counting_and_sleep sleeping_retry
counting_retry-Grants p sleep_ms get_sleep_time n =
    let (g, s) =
      counting_and_sleep-Grants_left (p.max_retries + 1) (counting_and_sleep p.max_retries sleep_ms)
        (omega arith) (omega arith) in
    (
      counting-Grants_left (p.max_retries + 1) (counting_retry p.max_retries) (omega arith),
      counting-Grants_left (p.max_retries + 1) (counting_reset p) (omega arith),
      g,
      s,
      sleeping_retry-Grants get_sleep_time n,
    )
