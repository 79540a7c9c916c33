-- ===== src/Retry/Backoff.antt =====
-- `TimeBoundedRetry` and `ExponentialTimeBoundedRetry`: attempts until a deadline, with pauses that
-- double. Times of the clock are in nanoseconds, pauses in milliseconds.
use asystem_astate.Base.{
  ℕ, ◌+◌, ◌*◌, ◌/◌, ◌-◌, ◌^◌, Bool, true, false, leb, ltb, ◌==◌, ◌&&◌, not, if◌then◌else◌,
}

-- The fields of both classes.
pub record TimeBounded : Type 0 where
  pub end_time : ℕ
  pub attempt_count : ℕ
  pub max_sleep : ℕ
  pub next_sleep : ℕ
  pub skip_initial_sleep : Bool
  pub sleep_skipped : Bool

-- `Builder::Build` at time `now`.
unfoldable pub build : ℕ → ℕ → ℕ → ℕ → Bool → TimeBounded
build now max_duration initial_sleep max_sleep skip_initial_sleep = record {
  end_time = now + max_duration * 1000000;
  attempt_count = 0;
  max_sleep = max_sleep;
  next_sleep = initial_sleep;
  skip_initial_sleep = skip_initial_sleep;
  sleep_skipped = false;
}

-- `ComputeNextWaitTime`: the pause, and the next state. The random ratio is `ratio / 2 ^ 53`; the
-- source converts it to an integer before it multiplies.
unfoldable pub compute_next_wait_time : ℕ → TimeBounded → ℕ × TimeBounded
compute_next_wait_time ratio p =
    if p.skip_initial_sleep && not p.sleep_skipped
    then (0, record p { sleep_skipped = true })
    else (let next = p.next_sleep in
        let doubled = next * 2 in
        let jitter = ratio / 2 ^ 53 * next in
        (
          next + jitter,
          record p { next_sleep = if ltb p.max_sleep doubled then p.max_sleep else doubled },
        ))

-- `TimeBoundedRetry::Attempt` at time `now`: is it granted, after which pause, and the next state.
unfoldable pub time_bounded_attempt : ℕ → ℕ → TimeBounded → Bool × ℕ × TimeBounded
time_bounded_attempt now ratio p =
    if p.attempt_count == 0
    then (true, 0, record p { attempt_count = 1 })
    else if leb p.end_time now
    then (false, 0, p)
    else (let (wait, q) = compute_next_wait_time ratio p in
        let rest = (p.end_time - now) / 1000000 in
        (
          true,
          if ltb p.end_time (now + wait * 1000000) then rest else wait,
          record q { attempt_count = q.attempt_count + 1 },
        ))
