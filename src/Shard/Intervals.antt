-- ===== src/Shard/Intervals.antt =====
-- `ShardedTensorToFlatIntervals`: the specification of the flat intervals of a shard.
use asystem_astate.Base.{
  All, ℕ, ◌<◌, ◌≡◌, refl, ◌∙◌, List, [], ◌∷◌, arith, reverse, ap, sym, subst, length, inl, inr, ◌↔◌,
}
use mathlib.Core.List.{reverse-reverse}
use asystem_astate.Shard.Types.{ShardedKey, ATensor, ok}
use asystem_astate.Shard.Flat.{rows_from, flat_intervals}
use asystem_astate.Shard.Blocks.{InBlock, InBlock-reverse, position, volume}
use asystem_astate.Shard.Rows.{
  Covers, Shaped, Holds, length-reverse, flat_intervals-eq-rows, rows-Covers, rows-All,
}

-- An element of the shard stands at row-major position `k` of the whole tensor: the coordinates
-- count from the last dimension, each weighted with the sizes of the later ones.
abbrev pub HoldsAt : ShardedKey → ATensor → ℕ → Type 0
HoldsAt key tensor k =
    (coords : List ℕ) × Holds key tensor coords
    × (position (reverse coords) (reverse key.global_shape) ≡ k)

-- The same with the last dimension first.
abbrev HoldsReversed : List ℕ → List ℕ → List ℕ → ℕ → Type 0
HoldsReversed shape os ns k = (cs : List ℕ) × InBlock cs os ns × (position cs shape ≡ k)

unreversed : (xs ys : List ℕ) → reverse xs ≡ ys → xs ≡ reverse ys
unreversed xs ys e = sym (reverse-reverse xs) ∙ ap reverse e

scalar :
    (key : ShardedKey) (tensor : ATensor)
    → key.global_shape ≡ []
    → flat_intervals key tensor ≡ ok ((0, 1) ∷ [])
unfolding flat_intervals
scalar key tensor e = rw e refl

module _ (key : ShardedKey) (tensor : ATensor) where
  HoldsAt-reverse :
      (k : ℕ)
      → HoldsAt key tensor k
        ↔ HoldsReversed
            (reverse key.global_shape)
            (reverse key.global_offset)
            (reverse tensor.size)
            k
  HoldsAt-reverse k = (
    λ (cs, h, e). (reverse cs, InBlock-reverse cs key.global_offset tensor.size h, e),
    λ (cs, h, e). (
      reverse cs,
      subst (λ (x : List ℕ). InBlock (reverse cs) x tensor.size) (reverse-reverse key.global_offset)
          (subst (λ (x : List ℕ). InBlock (reverse cs) (reverse (reverse key.global_offset)) x)
            (reverse-reverse tensor.size)
            (InBlock-reverse cs (reverse key.global_offset) (reverse tensor.size) h)),
      ap (λ (x : List ℕ). position x (reverse key.global_shape)) (reverse-reverse cs) ∙ e,
    ),
  )

  -- By cases on the reversed vectors.
  intervals_reversed :
      (shape os ns : List ℕ)
      → reverse key.global_shape ≡ shape
      → reverse key.global_offset ≡ os
      → reverse tensor.size ≡ ns
      → length os ≡ length shape
      → length ns ≡ length shape
      → (is : List (ℕ × ℕ)) × (flat_intervals key tensor ≡ ok is)
        × ((k : ℕ) → Covers is k ↔ HoldsReversed shape os ns k)
        × ((k : ℕ) → HoldsReversed shape os ns k → All (λ (i : ℕ × ℕ). i.0 < i.1) is)
  intervals_reversed [] [] [] e eo en lo ln = (
    (0, 1) ∷ [],
    scalar key tensor (unreversed key.global_shape [] e),
    λ k. (λ h. ([], tt, one k h), λ (cs, h, q). zero_inside k cs h q),
    λ k h. (omega arith, tt),
  )
    where
      one : (k : ℕ) → Covers ((0, 1) ∷ []) k → 0 ≡ k
      one k (inl h) = omega (arith, h.1)
      one k (inr h) = absurd h

      zero_inside :
          (k : ℕ) (cs : List ℕ) → InBlock cs [] [] → position cs [] ≡ k → Covers ((0, 1) ∷ []) k
      zero_inside k [] h q = inl (omega arith, omega (arith, q))
      zero_inside k (c ∷ cs) h q = absurd h
  intervals_reversed [] (o ∷ os) ns e eo en lo ln = absurd (omega (arith, lo))
  intervals_reversed [] [] (n ∷ ns) e eo en lo ln = absurd (omega (arith, ln))
  intervals_reversed (s ∷ shape) [] ns e eo en lo ln = absurd (omega (arith, lo))
  intervals_reversed (s ∷ shape) (o ∷ os) [] e eo en lo ln = absurd (omega (arith, ln))
  intervals_reversed (s ∷ shape) (o ∷ os) (n ∷ ns) e eo en lo ln = (
    rows_from (volume ns) 0 (n ∷ ns) (o ∷ os) key.global_shape,
    flat_intervals-eq-rows key tensor n o ns os (unreversed tensor.size (n ∷ ns) en)
        (unreversed key.global_offset (o ∷ os) eo)
        (sym (length-reverse key.global_shape) ∙ ap length e ∙ omega (arith, ln))
        (omega (arith, lo, ln)),
    λ k. rows-Covers n o ns os key.global_shape s k shape e (omega (arith, lo, ln)),
    λ k (cs, h, q). rows-All n o ns os key.global_shape (volume ns) 0 (row_length cs h),
  )
    where
      row_length : (cs : List ℕ) → InBlock cs (o ∷ os) (n ∷ ns) → 0 < n
      row_length [] h = absurd h
      row_length (c ∷ cs) h = omega (arith, h.0, h.1)

  -- The intervals of a shard can be computed, and hold exactly the positions of its elements. None
  -- is empty if the shard has an element.
  pub shard_intervals :
      Shaped key tensor
      → (is : List (ℕ × ℕ)) × (flat_intervals key tensor ≡ ok is)
        × ((k : ℕ) → Covers is k ↔ HoldsAt key tensor k)
        × ((k : ℕ) → HoldsAt key tensor k → All (λ (i : ℕ × ℕ). i.0 < i.1) is)
  shard_intervals h =
      let (is, computed, covers, nonempty) =
        intervals_reversed (reverse key.global_shape) (reverse key.global_offset)
          (reverse tensor.size) refl refl refl
          (length-reverse key.global_offset ∙ h.0 ∙ sym (length-reverse key.global_shape))
          (length-reverse tensor.size ∙ h.1 ∙ sym (length-reverse key.global_shape)) in
      (
        is,
        computed,
        λ k. (
          λ c. (HoldsAt-reverse k).1 ((covers k).0 c),
          λ c. (covers k).1 ((HoldsAt-reverse k).0 c),
        ),
        λ k c. nonempty k ((HoldsAt-reverse k).0 c),
      )

  -- If the vectors of a shard have one element for each dimension, its flat intervals can be
  -- computed, and cover exactly the row-major positions of its elements in the whole tensor.
  pub flat_intervals-Covers :
      Shaped key tensor
      → (is : List (ℕ × ℕ)) × (flat_intervals key tensor ≡ ok is)
        × ((k : ℕ) → Covers is k ↔ HoldsAt key tensor k)
  flat_intervals-Covers h = let (is, e, covers, _) = shard_intervals h in (is, e, covers)
