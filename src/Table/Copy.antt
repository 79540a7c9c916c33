-- ===== src/Table/Copy.antt =====
-- Copying shards of a whole tensor into a target.
use asystem_astate.Base.{
  ℕ, ◌+◌, ◌≡◌, refl, ◌∙◌, ap, ◌⊎◌, inl, inr, Bool-cases, Option, none, some, List, [], ◌∷◌, length,
  arith, leb, ltb,
}
use asystem_astate.Shard.Types.{ShardedKey}
use asystem_astate.Shard.Copy.{differences}
use asystem_astate.Shard.Blocks.{InBlock}
use asystem_astate.Shard.Intersect.{sums, Intersects, region_of}
use asystem_astate.Table.Torch.{Torch, IsTorch}
use asystem_astate.Table.Memory.{copied}

-- Whether coordinates lie in a block can be decided.
pub decide_InBlock : (cs os ns : List ℕ) → InBlock cs os ns ⊎ (InBlock cs os ns → ⊥)
decide_InBlock [] [] [] = inl tt
decide_InBlock [] [] (n ∷ ns) = inr (λ h. h)
decide_InBlock [] (o ∷ os) ns = inr (λ h. h)
decide_InBlock (c ∷ cs) [] ns = inr (λ h. h)
decide_InBlock (c ∷ cs) (o ∷ os) [] = inr (λ h. h)
decide_InBlock (c ∷ cs) (o ∷ os) (n ∷ ns) = elim (Bool-cases (leb o c)) [
  | inr a ↦ inr (λ h. ground (arith, a, h.0))
  | inl a ↦ elim (Bool-cases (ltb c (o + n))) [
    | inr b ↦ inr (λ h. ground (arith, b, h.1))
    | inl b ↦ elim (decide_InBlock cs os ns) [
      | inl r ↦ inl (ground (arith, a), ground (arith, b), r)
      | inr r ↦ inr (λ h. r h.2)
    ]
  ]
]

abbrev hd : List ℕ → ℕ
hd [] = 0
hd (x ∷ xs) = x

abbrev tl : List ℕ → List ℕ
tl [] = []
tl (x ∷ xs) = xs

-- From the whole tensor's coordinates to those of a target at offset `ps`, and back.
inside :
    (cs ps ms start shape : List ℕ)
    → InBlock cs ps ms
    → sums ps (differences start ps) ≡ start
    → InBlock cs start shape
    → InBlock (differences cs ps) (differences start ps) shape
unfolding differences
inside [] [] [] [] [] h f i = tt
inside [] [] [] [] (n ∷ shape) h f i = absurd i
inside [] [] [] (s ∷ start) shape h f i = absurd i
inside [] [] (m ∷ ms) start shape h f i = absurd h
inside [] (p ∷ ps) ms start shape h f i = absurd h
inside (c ∷ cs) [] ms start shape h f i = absurd h
inside (c ∷ cs) (p ∷ ps) [] start shape h f i = absurd h
inside (c ∷ cs) (p ∷ ps) (m ∷ ms) [] shape h f i = absurd i
inside (c ∷ cs) (p ∷ ps) (m ∷ ms) (s ∷ start) [] h f i = absurd i
inside (c ∷ cs) (p ∷ ps) (m ∷ ms) (s ∷ start) (n ∷ shape) h f i = (
  omega (arith, h.0, ap hd f, i.0),
  omega (arith, h.0, ap hd f, i.0, i.1),
  inside cs ps ms start shape h.2 (ap tl f) i.2,
)

outside :
    (cs ps ms start shape : List ℕ)
    → InBlock cs ps ms
    → sums ps (differences start ps) ≡ start
    → InBlock (differences cs ps) (differences start ps) shape
    → InBlock cs start shape
unfolding differences
outside [] [] [] [] [] h f i = tt
outside [] [] [] [] (n ∷ shape) h f i = absurd i
outside [] [] [] (s ∷ start) shape h f i = absurd (cc f)
outside [] [] (m ∷ ms) start shape h f i = absurd h
outside [] (p ∷ ps) ms start shape h f i = absurd h
outside (c ∷ cs) [] ms start shape h f i = absurd h
outside (c ∷ cs) (p ∷ ps) [] start shape h f i = absurd h
outside (c ∷ cs) (p ∷ ps) (m ∷ ms) [] shape h f i = absurd i
outside (c ∷ cs) (p ∷ ps) (m ∷ ms) (s ∷ start) [] h f i = absurd i
outside (c ∷ cs) (p ∷ ps) (m ∷ ms) (s ∷ start) (n ∷ shape) h f i = (
  omega (arith, h.0, ap hd f, i.0),
  omega (arith, h.0, ap hd f, i.0, i.1),
  outside cs ps ms start shape h.2 (ap tl f) i.2,
)

-- The element of the source that is copied.
source_at :
    (cs os ns ps ms start shape : List ℕ)
    → InBlock cs os ns
    → InBlock cs ps ms
    → sums os (differences start os) ≡ start
    → sums ps (differences start ps) ≡ start
    → InBlock cs start shape
    → sums (differences start os) (differences (differences cs ps) (differences start ps))
      ≡ differences cs os
unfolding differences
source_at [] [] [] [] [] [] [] h k e f i = refl
source_at [] [] [] [] [] [] (l ∷ shape) h k e f i = absurd i
source_at [] [] [] [] [] (s ∷ start) shape h k e f i = absurd i
source_at [] [] [] [] (m ∷ ms) start shape h k e f i = absurd k
source_at [] [] [] (p ∷ ps) ms start shape h k e f i = absurd k
source_at [] [] (n ∷ ns) ps ms start shape h k e f i = absurd h
source_at [] (o ∷ os) ns ps ms start shape h k e f i = absurd h
source_at (c ∷ cs) [] ns ps ms start shape h k e f i = absurd h
source_at (c ∷ cs) (o ∷ os) [] ps ms start shape h k e f i = absurd h
source_at (c ∷ cs) (o ∷ os) (n ∷ ns) [] ms start shape h k e f i = absurd k
source_at (c ∷ cs) (o ∷ os) (n ∷ ns) (p ∷ ps) [] start shape h k e f i = absurd k
source_at (c ∷ cs) (o ∷ os) (n ∷ ns) (p ∷ ps) (m ∷ ms) [] shape h k e f i = absurd i
source_at (c ∷ cs) (o ∷ os) (n ∷ ns) (p ∷ ps) (m ∷ ms) (s ∷ start) [] h k e f i = absurd i
source_at (c ∷ cs) (o ∷ os) (n ∷ ns) (p ∷ ps) (m ∷ ms) (s ∷ start) (l ∷ shape) h k e f i =
    rw (source_at cs os ns ps ms start shape h.2 k.2 (ap tl e) (ap tl f) i.2)
      (ap (λ (x : ℕ). x ∷ differences cs os) (omega (arith, h.0, k.0, ap hd e, ap hd f, i.0)))

module _ (torch : Torch) (laws : IsTorch torch) (whole : List ℕ → ℕ) where
  open torch use {Tensor, at, sizes, scalar_type}

  -- The tensor is the part of the whole one at its offset.
  abbrev pub IsPart : ShardedKey × Tensor → Type 0
  IsPart (key, t) =
      (coords : List ℕ)
      → InBlock coords key.global_offset (sizes t)
      → at t (differences coords key.global_offset) ≡ whole coords

  abbrev pub HoldsAt : List ℕ → ShardedKey × Tensor → Type 0
  HoldsAt coords (key, t) = InBlock coords key.global_offset (sizes t)

  -- A tensor and its key have `dims` dimensions.
  pub record HasDims (dims : ℕ) (e : ShardedKey × Tensor) : Type 0 where
    pub shape : length e.0.global_shape ≡ dims
    pub offset : length e.0.global_offset ≡ dims
    pub size : length (sizes e.1) ≡ dims

  -- A target after some copies: at the coordinates where it is said to be filled it has the
  -- elements of the whole tensor, and at the others those that it had.
  pub record IsFilled (key : ShardedKey) (before : Tensor) (after : Tensor)
      (Filled : List ℕ → Type 0) : Type 0 where
    pub kind : scalar_type after ≡ scalar_type before
    pub extent : sizes after ≡ sizes before
    pub filled :
        (coords : List ℕ)
        → InBlock coords key.global_offset (sizes before)
        → Filled coords
        → at after (differences coords key.global_offset) ≡ whole coords
    pub kept :
        (coords : List ℕ)
        → InBlock coords key.global_offset (sizes before)
        → (Filled coords → ⊥)
        → at after (differences coords key.global_offset)
          ≡ at before (differences coords key.global_offset)

  module _ (key : ShardedKey) (target : Tensor) (c : ShardedKey × Tensor) where
    abbrev os : List ℕ
    os = c.0.global_offset

    abbrev ps : List ℕ
    ps = key.global_offset

    pub copied-IsFilled :
        (r : Option (List ℕ × List ℕ))
        → Intersects os (sizes c.1) ps (sizes target) r
        → IsPart c
        → IsFilled key target
            (copied torch c.1 target (region_of os ps r)).0
            (λ coords. HoldsAt coords c)
    copied-IsFilled none h part = record {
      kind = refl;
      extent = refl;
      filled = λ coords i j. absurd (h coords j i);
      kept = λ coords i n. refl;
    }
    copied-IsFilled (some (start, end)) (e, f, both) part =
        let shape = differences end start in
        record {
          kind = laws.copy_type c.1 target _ _ _;
          extent = laws.copy_sizes c.1 target _ _ _;
          filled = λ coords i j.
              let b = (both coords).1 (j, i) in
              laws.copy_inside c.1 target (differences start os) (differences start ps) shape
                (differences coords ps) (inside coords ps (sizes target) start shape i f b)
              ∙ ap (at c.1)
                  (source_at coords os (sizes c.1) ps (sizes target) start shape j i e f b)
              ∙ part coords j;
          kept = λ coords i n.
              laws.copy_outside c.1 target (differences start os) (differences start ps) shape
                (differences coords ps)
                (λ b. n ((both coords).0 (outside coords ps (sizes target) start shape i f b)).0);
        }
