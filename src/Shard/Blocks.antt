-- ===== src/Shard/Blocks.antt =====
-- Blocks of coordinates, and the position of coordinates in row-major order. The lists hold the last
-- dimension first where nothing else is said.
use asystem_astate.Base.{
  ℕ, ◌+◌, ◌-◌, ◌*◌, ◌/◌, ◌≤◌, ◌<◌, ◌≡◌, refl, ◌∙◌, List, [], ◌∷◌, ◌++◌, arith, reverse, ap, sym,
  length,
}
use mathlib.Core.List.{reverse-cons}
use asystem_astate.Shard.Flat.{flat_loop, coords_to_flat_index, row_count, row_coords}
use asystem_astate.Shard.Digits.{mul_step, digits, rem-lt, quot-lt, rem_quot}

-- The coordinates lie in the block at offset `os` of size `ns`.
abbrev pub InBlock : List ℕ → List ℕ → List ℕ → Type 0
InBlock [] [] [] = Unit
InBlock (c ∷ cs) (o ∷ os) (n ∷ ns) = (o ≤ c) × (c < o + n) × InBlock cs os ns
InBlock _ _ _ = ⊥

-- The row-major position of the coordinates `cs` in a tensor of shape `ss`.
abbrev pub position : List ℕ → List ℕ → ℕ
position (c ∷ cs) (s ∷ ss) = c + s * position cs ss
position _ _ = 0

-- The number of elements of a block.
abbrev pub volume : List ℕ → ℕ
volume [] = 1
volume (n ∷ ns) = n * volume ns

-- The row of coordinates in a block.
abbrev pub row_of : List ℕ → List ℕ → List ℕ → ℕ
row_of (c ∷ cs) (o ∷ os) (n ∷ ns) = (c - o) + n * row_of cs os ns
row_of _ _ _ = 0

flat_loop-position :
    (acc stride : ℕ) (cs ss : List ℕ) → flat_loop acc stride cs ss ≡ acc + stride * position cs ss
unfolding flat_loop
flat_loop-position acc stride [] ss = grind arith
flat_loop-position acc stride (c ∷ cs) [] = grind arith
flat_loop-position acc stride (c ∷ cs) (s ∷ ss) =
    flat_loop-position (acc + c * stride) (stride * s) cs ss ∙ grind arith

pub flat_index-position :
    (coords shape : List ℕ)
    → coords_to_flat_index coords shape ≡ position (reverse coords) (reverse shape)
unfolding coords_to_flat_index
flat_index-position coords shape =
    flat_loop-position 0 1 (reverse coords) (reverse shape) ∙ omega arith

row_count-volume : (acc : ℕ) (ns : List ℕ) → row_count acc ns ≡ acc * volume ns
unfolding row_count
row_count-volume acc [] = grind arith
row_count-volume acc (n ∷ ns) = row_count-volume (acc * n) ns ∙ grind arith

volume-append : (ms ns : List ℕ) → volume (ms ++ ns) ≡ volume ms * volume ns
volume-append [] ns = omega arith
volume-append (m ∷ ms) ns = grind (arith, volume-append ms ns)

pub row_count-reverse : (ns : List ℕ) → row_count 1 ns ≡ volume (reverse ns)
row_count-reverse ns = row_count-volume 1 ns ∙ omega arith ∙ volume-reverse ns
  where
    volume-reverse : (ns : List ℕ) → volume ns ≡ volume (reverse ns)
    volume-reverse [] = refl
    volume-reverse (n ∷ ns) =
        rw (reverse-cons n ns, volume-append (reverse ns) (n ∷ []), sym (volume-reverse ns))
          (grind arith)

InBlock-append :
    (cs os ns ds ps ms : List ℕ)
    → InBlock cs os ns
    → InBlock ds ps ms
    → InBlock (cs ++ ds) (os ++ ps) (ns ++ ms)
InBlock-append [] [] [] ds ps ms h k = k
InBlock-append [] [] (n ∷ ns) ds ps ms h k = absurd h
InBlock-append [] (o ∷ os) ns ds ps ms h k = absurd h
InBlock-append (c ∷ cs) [] ns ds ps ms h k = absurd h
InBlock-append (c ∷ cs) (o ∷ os) [] ds ps ms h k = absurd h
InBlock-append (c ∷ cs) (o ∷ os) (n ∷ ns) ds ps ms h k =
    (h.0, h.1, InBlock-append cs os ns ds ps ms h.2 k)

pub InBlock-reverse :
    (cs os ns : List ℕ) → InBlock cs os ns → InBlock (reverse cs) (reverse os) (reverse ns)
InBlock-reverse [] [] [] h = tt
InBlock-reverse [] [] (n ∷ ns) h = absurd h
InBlock-reverse [] (o ∷ os) ns h = absurd h
InBlock-reverse (c ∷ cs) [] ns h = absurd h
InBlock-reverse (c ∷ cs) (o ∷ os) [] h = absurd h
InBlock-reverse (c ∷ cs) (o ∷ os) (n ∷ ns) h =
    rw (reverse-cons c cs, reverse-cons o os, reverse-cons n ns)
      (InBlock-append (reverse cs) (reverse os) (reverse ns) (c ∷ []) (o ∷ []) (n ∷ [])
        (InBlock-reverse cs os ns h.2) (h.0, h.1, tt))

-- The coordinates of a row lie in the block.
pub row_coords-InBlock :
    (row : ℕ) (ns os : List ℕ)
    → length ns ≡ length os
    → row < volume ns
    → InBlock (row_coords row ns os) os ns
unfolding row_coords
row_coords-InBlock row [] [] e h = tt
row_coords-InBlock row [] (o ∷ os) e h = absurd (omega (arith, e))
row_coords-InBlock row (n ∷ ns) [] e h = absurd (omega (arith, e))
row_coords-InBlock row (n ∷ ns) (o ∷ os) e h = (
  omega arith,
  omega (arith, rem-lt row n (volume ns) h),
  row_coords-InBlock (row / n) ns os (omega (arith, e)) (quot-lt row n (volume ns) h),
)

-- Coordinates in a block are those of their row, which is a row of the block.
pub row_of-lt : (cs os ns : List ℕ) → InBlock cs os ns → row_of cs os ns < volume ns
row_of-lt [] [] [] h = omega arith
row_of-lt [] [] (n ∷ ns) h = absurd h
row_of-lt [] (o ∷ os) ns h = absurd h
row_of-lt (c ∷ cs) [] ns h = absurd h
row_of-lt (c ∷ cs) (o ∷ os) [] h = absurd h
row_of-lt (c ∷ cs) (o ∷ os) (n ∷ ns) h =
    omega (arith, mul_step n (row_of cs os ns) (volume ns) (row_of-lt cs os ns h.2), h.0, h.1)

pub row_coords-row_of :
    (cs os ns : List ℕ) → InBlock cs os ns → row_coords (row_of cs os ns) ns os ≡ cs
unfolding row_coords
row_coords-row_of [] [] [] h = refl
row_coords-row_of [] [] (n ∷ ns) h = absurd h
row_coords-row_of [] (o ∷ os) ns h = absurd h
row_coords-row_of (c ∷ cs) [] ns h = absurd h
row_coords-row_of (c ∷ cs) (o ∷ os) [] h = absurd h
row_coords-row_of (c ∷ cs) (o ∷ os) (n ∷ ns) h =
    let r = rem_quot n (c - o) (row_of cs os ns) (omega (arith, h.0, h.1)) in
    rw (r.0, r.1, row_coords-row_of cs os ns h.2) (ap (λ (x : ℕ). x ∷ cs) (omega (arith, h.0)))

-- The coordinates are below the sizes of the tensor.
abbrev pub Within : List ℕ → List ℕ → Type 0
Within [] [] = Unit
Within (c ∷ cs) (s ∷ ss) = (c < s) × Within cs ss
Within _ _ = ⊥

Within-append : (cs ss ds ts : List ℕ) → Within cs ss → Within ds ts → Within (cs ++ ds) (ss ++ ts)
Within-append [] [] ds ts h k = k
Within-append [] (s ∷ ss) ds ts h k = absurd h
Within-append (c ∷ cs) [] ds ts h k = absurd h
Within-append (c ∷ cs) (s ∷ ss) ds ts h k = (h.0, Within-append cs ss ds ts h.1 k)

pub Within-reverse : (cs ss : List ℕ) → Within cs ss → Within (reverse cs) (reverse ss)
Within-reverse [] [] h = tt
Within-reverse [] (s ∷ ss) h = absurd h
Within-reverse (c ∷ cs) [] h = absurd h
Within-reverse (c ∷ cs) (s ∷ ss) h =
    rw (reverse-cons c cs, reverse-cons s ss)
      (Within-append (reverse cs) (reverse ss) (c ∷ []) (s ∷ []) (Within-reverse cs ss h.1)
        (h.0, tt))

-- Two coordinates within the shape have different positions.
pub position-injective :
    (cs ds ss : List ℕ) → Within cs ss → Within ds ss → position cs ss ≡ position ds ss → cs ≡ ds
position-injective [] [] [] h k e = refl
position-injective [] (d ∷ ds) [] h k e = absurd k
position-injective (c ∷ cs) ds [] h k e = absurd h
position-injective [] ds (s ∷ ss) h k e = absurd h
position-injective (c ∷ cs) [] (s ∷ ss) h k e = absurd k
position-injective (c ∷ cs) (d ∷ ds) (s ∷ ss) h k e =
    let r = digits s c d (position cs ss) (position ds ss) h.0 k.0 e in
    cc (r.0, position-injective cs ds ss h.1 k.1 r.1)
