-- ===== src/Retry/Tests.antt =====
-- A call that fails twice, under a policy with two retries, and the pauses of a bounded retry.
use asystem_astate.Base.{
  true, ◌≤◌, ℕ, Option, zero, suc, ◌^◌, ◌*◌, min, false, none, some, ◌≡◌, refl, arith, [], ◌∷◌,
  get_elem?,
}
use asystem_astate.Retry.Policy.{
  CountingRetry, counting_retry, counting_reset, counting_attempt, Grants, counting_retry-Grants,
  counting_and_sleep, counting_and_sleep_attempt, after_attempts, sleeping_retry, sleeping_attempt,
  SleepingRetry,
}
use asystem_astate.Retry.Loop.{Called, returned, thrown, done, rethrown, retry, after_call}
use asystem_astate.Retry.Timeout.{TimeoutRetry, timeout_retry, timeout_attempt, get_sleep_time}
use asystem_astate.Retry.Pauses.{IsPaced, timeout_retry-pauses, get_sleep_time_overflows}
use asystem_astate.Retry.Results.{retry-settled, retry-exhausted}
use asystem_astate.Retry.Backoff.{TimeBounded, build, time_bounded_attempt, compute_next_wait_time}
use asystem_astate.Retry.Deadline.{pauses, pauses-get_elem?}

-- The state counts the calls; the third one returns.
abbrev third_time : ℕ → Called ℕ × ℕ
third_time zero = (thrown 10, 1)
third_time (suc zero) = (thrown 11, 2)
third_time (suc (suc n)) = (returned 7, suc (suc (suc n)))

third_time_run :
    retry counting_attempt third_time 9 (counting_retry 2) none 0
    ≡ some (done 7, record { max_retries = 2; attempt_count = 3 }, 3)
unfolding retry after_call counting_retry counting_attempt
third_time_run = refl

second_time_run :
    retry counting_attempt third_time 9 (counting_retry 1) none 0
    ≡ some (rethrown 11, record { max_retries = 1; attempt_count = 2 }, 2)
unfolding retry after_call counting_retry counting_attempt
second_time_run = refl

counting_retry-Grants_example :
    Grants counting_attempt 3 (counting_retry 2)
    × Grants counting_attempt 3 (counting_reset (record { max_retries = 2; attempt_count = 3 }))
    × Grants counting_and_sleep_attempt 3 (counting_and_sleep 2 100)
    × ((after_attempts counting_and_sleep_attempt 3 (counting_and_sleep 2 100)).slept ≡ 200)
    × ((q : SleepingRetry) × (sleeping_retry 4 ≡ some q)
        × Grants (sleeping_attempt (λ n. some (100 * n))) 5 q
        × ((throwing : ℕ → Option ℕ) → throwing 1 ≡ none → Grants (sleeping_attempt throwing) 1 q))
counting_retry-Grants_example =
    counting_retry-Grants (record { max_retries = 2; attempt_count = 3 }) 100 (λ n. 100 * n) 3

retry-settled_example :
    (s : CountingRetry) × (retry counting_attempt third_time 4 (counting_retry 2) none 0
      ≡ some (done 7, s, 3))
unfolding counting_retry
retry-settled_example =
    retry-settled counting_attempt third_time 3 4 (counting_retry 2) none (10 ∷ 11 ∷ []) 0 2
      (done 7) (counting_retry-Grants (counting_retry 2) 0 (λ n. n) 0).0 (omega arith) (omega arith)
      (refl, (refl, refl)) refl

retry-exhausted_example :
    (s : CountingRetry) × (retry counting_attempt third_time 3 (counting_retry 1) none 0
      ≡ some (rethrown 11, s, 2))
unfolding counting_retry
retry-exhausted_example =
    retry-exhausted counting_attempt third_time 2 3 (counting_retry 1) none (10 ∷ 11 ∷ []) 0 2
      (counting_retry-Grants (counting_retry 1) 0 (λ n. n) 0).0 (omega arith) (omega arith)
      (refl, (refl, refl))

abbrev bounded : TimeBounded
bounded = record {
  end_time = 5000000;
  attempt_count = 1;
  max_sleep = 6;
  next_sleep = 2;
  skip_initial_sleep = false;
  sleep_skipped = false;
}

build-bounded : build 0 5 2 6 false ≡ record bounded { attempt_count = 0 }
unfolding build
build-bounded = refl

-- The pause is cut to what is left before the deadline.
last_pause : (time_bounded_attempt 4000000 0 bounded).1 ≡ 1
unfolding time_bounded_attempt compute_next_wait_time
last_pause = refl

pauses-get_elem?_example :
    get_elem? (pauses (0 ∷ 5 ∷ 900719925474099 ∷ []) bounded) 1 ≡ some (min (2 * 2 ^ 1) 6)
pauses-get_elem?_example =
    pauses-get_elem? (0 ∷ 5 ∷ 900719925474099 ∷ []) bounded 1
      (omega arith, (omega arith, (omega arith, tt))) refl (omega arith) (omega arith)

abbrev waiting : TimeoutRetry
waiting = record {
  retry_timeout_ms = 50;
  sleep_ms = 20;
  attempt_count = 2;
  first_attempt = false;
  start_time = 1000;
}

new_timeout :
    timeout_retry 50 20
    ≡ some (record waiting { attempt_count = 0; first_attempt = true; start_time = 0 })
unfolding timeout_retry
new_timeout = refl

-- Attempts at 1 microsecond and after two pauses; a third pause would be one too many.
granted_IsPaced :
    IsPaced 0
      (1000 ∷ 21002000 ∷ 41003000 ∷ [])
      (record waiting { attempt_count = 0; first_attempt = true; start_time = 0 })
unfolding timeout_attempt
granted_IsPaced = (omega arith, (omega arith, (omega arith, tt)))

timeout_retry-pauses_example : 2 * 20 ≤ 50
unfolding timeout_retry timeout_attempt
timeout_retry-pauses_example =
    timeout_retry-pauses 50 20 _ 1000 (21002000 ∷ 41003000 ∷ []) refl granted_IsPaced
      (refl, (refl, (refl, tt)))

get_sleep_time_overflows_example : get_sleep_time 50 3000 29 536870912 ≡ none
get_sleep_time_overflows_example =
    get_sleep_time_overflows 50 3000 536870912 (omega arith) (omega arith)
