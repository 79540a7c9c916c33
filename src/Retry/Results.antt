-- ===== src/Retry/Results.antt =====
-- What `RetryUtils::Retry` returns, by the attempts that the policy grants.
use asystem_astate.Base.{
  ℕ, zero, suc, ◌<◌, true, Option, none, some, ◌≡◌, refl, ap, sym, subst, ◌∙◌, some-injective,
  arith, List, [], ◌∷◌, length,
}
use asystem_astate.Retry.Policy.{Attempt, Grants}
use asystem_astate.Retry.Loop.{
  Called, returned, non_retryable, thrown, Retried, done, rethrown, give_up, after_call, retry,
  Throws, last_of,
}

-- The result that ends the loop at once.
abbrev pub settle : {A : Type 0} → Called A → Option (Retried A)
settle (returned a) = some (done a)
settle (non_retryable e) = some (rethrown e)
settle (thrown e) = none

module _ {A S W : Type 0} (attempt : Attempt S) (func : W → Called A × W) where
  retry-settle :
      (fuel : ℕ) (s : S) (last : Option ℕ) (w : W) (r : Retried A)
      → (attempt s).0 ≡ true
      → settle (func w).0 ≡ some r
      → retry attempt func (suc fuel) s last w ≡ some (r, (attempt s).1, (func w).1)
  unfolding retry after_call
  retry-settle fuel s last w r g e = rw g (settled (func w).0 e)
    where
      again : ℕ → Option (Retried A × S × W)
      again x = retry attempt func fuel (attempt s).1 (some x) (func w).1

      settled :
          (c : Called A)
          → settle c ≡ some r
          → after_call c (attempt s).1 (func w).1 again ≡ some (r, (attempt s).1, (func w).1)
      settled (returned a) e =
          ap (λ (x : Retried A). some (x, (attempt s).1, (func w).1)) (some-injective (done a) r e)
      settled (non_retryable y) e =
          ap (λ (x : Retried A). some (x, (attempt s).1, (func w).1))
            (some-injective (rethrown y) r e)
      settled (thrown y) e = absurd (ground (arith, e))

  retry-thrown :
      (fuel : ℕ) (s : S) (last : Option ℕ) (w : W) (e : ℕ)
      → (attempt s).0 ≡ true
      → (func w).0 ≡ thrown e
      → retry attempt func (suc fuel) s last w
        ≡ retry attempt func fuel (attempt s).1 (some e) (func w).1
  unfolding retry after_call
  retry-thrown fuel s last w e g h = rw (g, h) refl

  -- If the call throws retryable exceptions fewer times than the policy grants attempts, and then
  -- returns or throws a `NonRetryableException`, that is the result, and no further call is made.
  pub retry-settled :
      (n fuel : ℕ) (s : S) (last : Option ℕ) (es : List ℕ) (w w' : W) (r : Retried A)
      → Grants attempt n s
      → n < fuel
      → length es < n
      → Throws attempt func es w w'
      → settle (func w').0 ≡ some r
      → (s' : S) × (retry attempt func fuel s last w ≡ some (r, s', (func w').1))
  retry-settled n zero s last es w w' r g f l t e = absurd (omega (arith, f))
  retry-settled zero (suc fuel) s last es w w' r g f l t e = absurd (omega (arith, l))
  retry-settled (suc n) (suc fuel) s last [] w w' r g f l t e = (
    (attempt s).1,
    subst (λ (x : W). retry attempt func (suc fuel) s last w ≡ some (r, (attempt s).1, (func x).1))
        t
        (retry-settle fuel s last w r g.0
          (subst (λ (x : W). settle (func x).0 ≡ some r) (sym t) e)),
  )
  retry-settled (suc n) (suc fuel) s last (x ∷ es) w w' r g f l t e =
      let (s', h) =
        retry-settled n fuel (attempt s).1 (some x) es (func w).1 w' r g.1 (omega (arith, f))
          (omega (arith, l)) t.1 e in
      (s', retry-thrown fuel s last w x g.0 t.0 ∙ h)

  -- If the call throws a retryable exception at each attempt that the policy grants, the last one is
  -- thrown, and the exception of the loop itself if there was none.
  pub retry-exhausted :
      (n fuel : ℕ) (s : S) (last : Option ℕ) (es : List ℕ) (w w' : W)
      → Grants attempt n s
      → n < fuel
      → length es ≡ n
      → Throws attempt func es w w'
      → (s' : S) × (retry attempt func fuel s last w
          ≡ some (give_up (last_of attempt func last es), s', w'))
  unfolding retry after_call
  retry-exhausted n zero s last es w w' g f l t = absurd (omega (arith, f))
  retry-exhausted zero (suc fuel) s last [] w w' g f l t = ((attempt s).1, rw (g, t) refl)
  retry-exhausted zero (suc fuel) s last (x ∷ es) w w' g f l t = absurd (omega (arith, l))
  retry-exhausted (suc n) (suc fuel) s last [] w w' g f l t = absurd (omega (arith, l))
  retry-exhausted (suc n) (suc fuel) s last (x ∷ es) w w' g f l t =
      let (s', h) =
        retry-exhausted n fuel (attempt s).1 (some x) es (func w).1 w' g.1 (omega (arith, f))
          (omega (arith, l)) t.1 in
      (s', retry-thrown fuel s last w x g.0 t.0 ∙ h)
