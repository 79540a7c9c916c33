-- ===== src/Remote/Strides.antt =====
-- Strides in row-major order: the elements of a block stand in as many places as it has elements.
use asystem_astate.Base.{ℕ, ◌+◌, ◌*◌, ◌-◌, ◌<◌, ◌≡◌, List, [], ◌∷◌, arith}
use asystem_astate.Shard.Blocks.{InBlock}
use asystem_astate.Shard.Digits.{mul_step}
use asystem_astate.Remote.Copies.{numel}
use asystem_astate.Remote.Shards.Adjusted.{distance}

-- Each stride is the number of elements behind its dimension.
abbrev pub IsRowMajor : List ℕ → List ℕ → Type 0
IsRowMajor [] [] = Unit
IsRowMajor (s ∷ strides) (n ∷ sizes) = (s ≡ numel sizes) × IsRowMajor strides sizes
IsRowMajor _ _ = ⊥

pub distance-lt :
    (strides sizes coords base : List ℕ)
    → IsRowMajor strides sizes
    → InBlock coords base sizes
    → distance strides coords base < numel sizes
unfolding numel
distance-lt [] [] [] [] h k = omega arith
distance-lt [] [] [] (o ∷ base) h k = absurd k
distance-lt [] [] (c ∷ coords) [] h k = absurd k
distance-lt [] [] (c ∷ coords) (o ∷ base) h k = absurd k
distance-lt [] (n ∷ sizes) coords base h k = absurd h
distance-lt (s ∷ strides) [] coords base h k = absurd h
distance-lt (s ∷ strides) (n ∷ sizes) [] [] h k = absurd k
distance-lt (s ∷ strides) (n ∷ sizes) [] (o ∷ base) h k = absurd k
distance-lt (s ∷ strides) (n ∷ sizes) (c ∷ coords) [] h k = absurd k
distance-lt (s ∷ strides) (n ∷ sizes) (c ∷ coords) (o ∷ base) h k =
    let rest = distance-lt strides sizes coords base h.1 k.2 in
    rw h.0
      (step (numel sizes) (c - o) n (distance strides coords base) (omega (arith, k.0, k.1)) rest)
  where
    step : (m d n e : ℕ) → d < n → e < m → m * d + e < n * m
    step m d n e l r = grind (arith, mul_step m d n l, r)
