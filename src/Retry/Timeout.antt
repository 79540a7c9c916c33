-- ===== src/Retry/Timeout.antt =====
-- `TimeoutRetry`, and the pauses of `ExponentialBackoffRetry`. Times of the clock are in nanoseconds.
use asystem_astate.Base.{
  ℕ, zero, suc, ◌+◌, ◌*◌, ◌/◌, ◌-◌, ◌^◌, min, Bool, true, false, leb, if◌then◌else◌, Option, none,
  some,
}

pub record TimeoutRetry : Type 0 where
  pub retry_timeout_ms : ℕ
  pub sleep_ms : ℕ
  pub attempt_count : ℕ
  pub first_attempt : Bool
  pub start_time : ℕ

-- The constructor throws (`none`) if the timeout is not positive. `start_time_` is not yet set.
unfoldable pub timeout_retry : ℕ → ℕ → Option TimeoutRetry
timeout_retry zero sleep_ms = none
timeout_retry (suc n) sleep_ms = some (record {
  retry_timeout_ms = suc n;
  sleep_ms = sleep_ms;
  attempt_count = 0;
  first_attempt = true;
  start_time = 0;
})

-- `TimeoutRetry::Attempt`: the result, the pause in milliseconds before the clock is read, and the
-- next state. `now` is what the clock reads then.
unfoldable pub timeout_attempt : ℕ → TimeoutRetry → Bool × ℕ × TimeoutRetry
timeout_attempt now p =
    if p.first_attempt
    then (
      true,
      0,
      record p { start_time = now; attempt_count = p.attempt_count + 1; first_attempt = false },
    )
    else (let elapsed = (now - p.start_time) / 1000000 in
        if leb elapsed p.retry_timeout_ms
        then (true, p.sleep_ms, record p { attempt_count = p.attempt_count + 1 })
        else (false, p.sleep_ms, p))

-- `ExponentialBackoffRetry::GetSleepTime` for an attempt count and the random number; `none` for a
-- product that is too large for an `int`, which is undefined. `SafeAbs` changes no other product.
unfoldable pub get_sleep_time : ℕ → ℕ → ℕ → ℕ → Option ℕ
get_sleep_time base_sleep_time_ms max_sleep_ms count draw =
    if leb 30 count
    then some max_sleep_ms
    else if leb (2 ^ 31) (base_sleep_time_ms * draw)
    then none
    else some (min (base_sleep_time_ms * draw) max_sleep_ms)
