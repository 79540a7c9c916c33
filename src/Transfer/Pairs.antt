-- ===== src/Transfer/Pairs.antt =====
-- How far one writer and one reader can be apart.
use asystem_astate.Base.{
  ℕ, ◌+◌, ◌≡◌, refl, subst, ◌∙◌, Bool, true, false, not, ◌&&◌, ◌||◌, Bool-cases, if◌then◌else◌,
  List, [], ◌∷◌, ◌⊎◌, inl, inr, arith,
}
use asystem_astate.Protocol.Nodes.{NodeInfo}
use asystem_astate.Transfer.Hosts.{mem_node, same_node, same_node-eq}
use asystem_astate.Transfer.Rounds.{
  WriterPhase, writing, announcing, waiting, ReaderPhase, getting, reading, notifying, drop_node,
}

-- The writer has told the reader in this round, or tried to.
abbrev pub told : WriterPhase → NodeInfo → Bool
told writing r = false
told (announcing rest) r = not (mem_node r rest)
told waiting r = true

-- How far the reader is in its round, as the writer sees it.
abbrev pub stage : ReaderPhase → NodeInfo → ℕ
stage getting w = 0
stage reading w = 1
stage (notifying rest) w = if mem_node w rest then 2 else 3

-- The writer in round `n`, the reader in round `m`, whether the writer has told the reader, and
-- whether each stands in the set of the other.
pub data Synced (told ready consumed : Bool) (n m stage : ℕ) : Type 0 where
  fresh :
      n ≡ m
      → told ≡ false
      → stage ≡ 0
      → ready ≡ false
      → consumed ≡ false
      → Synced told ready consumed n m stage
  announced :
      n ≡ m → told ≡ true → stage ≡ 0 → consumed ≡ false → Synced told ready consumed n m stage
  used :
      n ≡ m
      → told ≡ true
      → (stage ≡ 1) ⊎ (stage ≡ 2)
      → consumed ≡ false
      → Synced told ready consumed n m stage
  released : n ≡ m → told ≡ true → stage ≡ 3 → Synced told ready consumed n m stage
  left : m ≡ n + 1 → told ≡ true → stage ≡ 0 → ready ≡ false → Synced told ready consumed n m stage
  ahead : n ≡ m + 1 → stage ≡ 3 → consumed ≡ false → Synced told ready consumed n m stage

module _ {ready consumed : Bool} {n m : ℕ} where
  -- The writer tells the reader; the message may be lost.
  pub tells :
      {told ready' : Bool} {stage : ℕ}
      → told ≡ false
      → Synced told ready consumed n m stage
      → Synced true ready' consumed n m stage
  tells t (fresh e _ s _ c) = announced e refl s c
  tells t (announced e u s c) = cc
  tells t (used e u s c) = cc
  tells t (released e u s) = cc
  tells t (left e u s r) = cc
  tells t (ahead e s c) = ahead e s c

  -- A writer that is told by the reader ends its round.
  pub ends_writing :
      {stage : ℕ}
      → consumed ≡ true
      → Synced true ready consumed n m stage
      → Synced false ready false (n + 1) m stage
  ends_writing k (fresh e u s r c) = cc
  ends_writing k (announced e u s c) = cc
  ends_writing k (used e u s c) = cc
  ends_writing k (released e u s) = ahead (omega (arith, e)) s refl
  ends_writing k (left e u s r) = fresh (omega (arith, e)) refl s r refl
  ends_writing k (ahead e s c) = cc

  pub starts_reading :
      {told : Bool}
      → ready ≡ true
      → Synced told ready consumed n m 0
      → Synced told ready consumed n m 1
  starts_reading k (fresh e u s r c) = cc
  starts_reading k (announced e u s c) = used e u (inl refl) c
  starts_reading k (used e u s c) = absurd (ground (arith, s))
  starts_reading k (released e u s) = absurd (omega (arith, s))
  starts_reading k (left e u s r) = cc
  starts_reading k (ahead e s c) = absurd (omega (arith, s))

  pub completes_reading :
      {told : Bool} → Synced told ready consumed n m 1 → Synced told ready consumed n m 2
  completes_reading (fresh e u s r c) = absurd (omega (arith, s))
  completes_reading (announced e u s c) = absurd (omega (arith, s))
  completes_reading (used e u s c) = used e u (inr refl) c
  completes_reading (released e u s) = absurd (omega (arith, s))
  completes_reading (left e u s r) = absurd (omega (arith, s))
  completes_reading (ahead e s c) = absurd (omega (arith, s))

  -- The reader tells the writer; the message may be lost.
  pub notifies :
      {told consumed' : Bool} → Synced told ready consumed n m 2 → Synced told ready consumed' n m 3
  notifies (fresh e u s r c) = absurd (omega (arith, s))
  notifies (announced e u s c) = absurd (omega (arith, s))
  notifies (used e u s c) = released e u refl
  notifies (released e u s) = absurd (omega (arith, s))
  notifies (left e u s r) = absurd (omega (arith, s))
  notifies (ahead e s c) = absurd (omega (arith, s))

  pub ends_reading :
      {told : Bool} → Synced told ready consumed n m 3 → Synced told false consumed n (m + 1) 0
  ends_reading (fresh e u s r c) = absurd (omega (arith, s))
  ends_reading (announced e u s c) = absurd (omega (arith, s))
  ends_reading (used e u s c) = absurd (ground (arith, s))
  ends_reading (released e u s) = left (omega (arith, e)) u refl refl
  ends_reading (left e u s r) = absurd (omega (arith, s))
  ends_reading {told = false} (ahead e s c) = fresh (omega (arith, e)) refl refl refl c
  ends_reading {told = true} (ahead e s c) = announced (omega (arith, e)) refl refl c

pub mem-drop :
    (a b : NodeInfo) (xs : List NodeInfo)
    → mem_node a (drop_node b xs) ≡ (not (same_node a b) && mem_node a xs)
mem-drop a b [] = ground arith
mem-drop a b (x ∷ xs) = elim (Bool-cases (same_node b x)) [
  | inl s ↦ rw s (
      mem-drop a b xs
      ∙ subst
          (λ c.
            (not (same_node a b) && mem_node a xs)
            ≡ (not (same_node a b) && (same_node a c || mem_node a xs)))
          (same_node-eq b x s) (ground arith))
  | inr s ↦ rw s (elim (Bool-cases (same_node a x)) [
    | inl t ↦ rw t (elim (Bool-cases (same_node a b)) [
      | inl u ↦ absurd (ground (arith, s, subst (λ c. same_node c x ≡ true) (same_node-eq a b u) t))
      | inr u ↦ rw u refl
    ])
    | inr t ↦ rw t (mem-drop a b xs)
  ])
]
