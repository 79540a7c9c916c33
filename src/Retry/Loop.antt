-- ===== src/Retry/Loop.antt =====
-- `RetryUtils::Retry`, the template and the overload for functions without a value.
use asystem_astate.Base.{ℕ, zero, suc, if◌then◌else◌, Option, none, some, ◌≡◌, List, [], ◌∷◌}
use asystem_astate.Retry.Policy.{Attempt}

-- A call returns a value, or throws an exception, which is a `NonRetryableException` or another one.
pub data Called (A : Type 0) : Type 0 where
  returned : A → Called A
  non_retryable : ℕ → Called A
  thrown : ℕ → Called A

-- What `Retry` does: it returns, throws an exception of the call, or throws its own.
pub data Retried (A : Type 0) : Type 0 where
  done : A → Retried A
  rethrown : ℕ → Retried A
  no_exception : Retried A

abbrev pub give_up : {A : Type 0} → Option ℕ → Retried A
give_up none = no_exception
give_up (some e) = rethrown e

-- The `try` block; `again` is the next turn of the loop, given `last_exception`.
unfoldable pub after_call :
    {A S W : Type 0}
    → Called A
    → S
    → W
    → (ℕ → Option (Retried A × S × W))
    → Option (Retried A × S × W)
after_call (returned a) s w again = some (done a, s, w)
after_call (non_retryable e) s w again = some (rethrown e, s, w)
after_call (thrown e) s w again = again e

-- The state `W` is all that the call reads and changes.
module _ {A S W : Type 0} (attempt : Attempt S) (func : W → Called A × W) where
  -- The loop, with `last_exception`; `none` if the fuel does not suffice.
  unfoldable pub retry : ℕ → S → Option ℕ → W → Option (Retried A × S × W)
  retry zero s last w = none
  retry (suc fuel) s last w =
      if (attempt s).0
      then after_call (func w).0 (attempt s).1 (func w).1
          (λ e. retry fuel (attempt s).1 (some e) (func w).1)
      else some (give_up last, (attempt s).1, w)

  -- From `w` the call throws the exceptions `es`, one after the other, which leads to `w'`.
  abbrev pub Throws : List ℕ → W → W → Type 0
  Throws [] w w' = w ≡ w'
  Throws (e ∷ es) w w' = ((func w).0 ≡ thrown e) × Throws es (func w).1 w'

  -- The last of the exceptions.
  abbrev pub last_of : Option ℕ → List ℕ → Option ℕ
  last_of last [] = last
  last_of last (e ∷ es) = last_of (some e) es
