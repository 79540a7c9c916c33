-- ===== src/Shard/Rows.antt =====
-- `ShardedTensorToFlatIntervals`: the intervals hold the positions of the shard's elements.
use asystem_astate.Base.{
  All, ℕ, zero, suc, ◌+◌, ◌-◌, ◌*◌, ◌≤◌, ◌<◌, ◌==◌, ◌≡◌, refl, ◌∙◌, List, [], ◌∷◌, ◌++◌, arith,
  reverse, ap, sym, subst, length, length-append, ◌⊎◌, inl, inr, ◌↔◌, Bool-cases, false, ==→eq,
  append-nil,
}
use mathlib.Core.List.{reverse-cons, reverse-reverse}
use asystem_astate.Shard.Types.{ShardedKey, ATensor, ok, prefix}
use asystem_astate.Shard.Flat.{row_coords, row_interval, rows_from, flat_intervals}
use asystem_astate.Shard.Blocks.{
  InBlock, position, volume, row_of, flat_index-position, row_count-reverse, row_coords-InBlock,
  row_of-lt, row_coords-row_of,
}

abbrev pub Inside : ℕ × ℕ → ℕ → Type 0
Inside i k = (i.0 ≤ k) × (k < i.1)

-- Some interval of the list contains `k`.
abbrev pub Covers : List (ℕ × ℕ) → ℕ → Type 0
Covers [] k = ⊥
Covers (i ∷ is) k = Inside i k ⊎ Covers is k

-- The vectors of the key and the tensor have one element for each dimension.
abbrev pub Shaped : ShardedKey → ATensor → Type 0
Shaped key tensor =
    (length key.global_offset ≡ length key.global_shape)
    × (length tensor.size ≡ length key.global_shape)

-- The element at coordinates `coords` of the whole tensor belongs to the shard.
abbrev pub Holds : ShardedKey → ATensor → List ℕ → Type 0
Holds key tensor coords = InBlock coords key.global_offset tensor.size

pub length-reverse : (xs : List ℕ) → length (reverse xs) ≡ length xs
length-reverse [] = refl
length-reverse (x ∷ xs) =
    rw (reverse-cons x xs, length-append (reverse xs) (x ∷ [])) (omega (arith, length-reverse xs))

prefix-append : (xs ys : List ℕ) → prefix (length xs) (xs ++ ys) ≡ ok xs
unfolding prefix
prefix-append [] ys = refl
prefix-append (x ∷ xs) ys = rw (prefix-append xs ys) refl

pub prefix-length : (n : ℕ) (xs : List ℕ) → length xs ≡ n → prefix n xs ≡ ok xs
prefix-length n xs e =
    subst (λ (m : ℕ). prefix m xs ≡ ok xs) e
      (subst (λ (ys : List ℕ). prefix (length xs) ys ≡ ok xs) (append-nil xs) (prefix-append xs []))

no_rows : (ns os shape : List ℕ) (count : ℕ) → count ≡ 0 → [] ≡ rows_from count 0 ns os shape
unfolding rows_from
no_rows ns os shape zero e = refl
no_rows ns os shape (suc count) e = absurd (omega (arith, e))

-- The value on a shard of at least one dimension.
pub flat_intervals-eq-rows :
    (key : ShardedKey) (tensor : ATensor) (n o : ℕ) (ns os : List ℕ)
    → tensor.size ≡ reverse (n ∷ ns)
    → key.global_offset ≡ reverse (o ∷ os)
    → length key.global_shape ≡ suc (length ns)
    → length os ≡ length ns
    → flat_intervals key tensor ≡ ok (rows_from (volume ns) 0 (n ∷ ns) (o ∷ os) key.global_shape)
unfolding flat_intervals
flat_intervals-eq-rows key tensor n o ns os es eo ed el =
    rw
      (
        ed,
        es,
        eo,
        positive (length ns),
        pred (length ns),
        leading,
        row_count-reverse (reverse ns),
        reverse-reverse ns,
      )
      (rw (sizes, offsets, reverse-reverse (n ∷ ns), reverse-reverse (o ∷ os))
        (elim (Bool-cases (volume ns == 0)) [
          | inl e ↦ rw e (
              ap ok
                (no_rows (n ∷ ns) (o ∷ os) key.global_shape (volume ns) (==→eq (volume ns) 0 e)))
          | inr e ↦ rw e refl
        ]))
  where
    positive : (m : ℕ) → (suc m == 0) ≡ false
    positive m = ground arith

    pred : (m : ℕ) → suc m - 1 ≡ m
    pred m = omega arith

    leading : prefix (length ns) (reverse (n ∷ ns)) ≡ ok (reverse ns)
    leading = rw (reverse-cons n ns) (
        subst (λ (m : ℕ). prefix m (reverse ns ++ (n ∷ [])) ≡ ok (reverse ns)) (length-reverse ns)
          (prefix-append (reverse ns) (n ∷ [])))

    sizes : prefix (suc (length ns)) (reverse (n ∷ ns)) ≡ ok (reverse (n ∷ ns))
    sizes = prefix-length (suc (length ns)) (reverse (n ∷ ns)) (length-reverse (n ∷ ns))

    offsets : prefix (suc (length ns)) (reverse (o ∷ os)) ≡ ok (reverse (o ∷ os))
    offsets =
        prefix-length (suc (length ns)) (reverse (o ∷ os))
          (length-reverse (o ∷ os) ∙ omega (arith, el))

module _ (n o : ℕ) (ns os shape : List ℕ) where
  -- A row that covers `k`.
  abbrev RowAt : ℕ → ℕ → ℕ → Type 0
  RowAt first last k =
      (r : ℕ) × (first ≤ r) × (r < last) × Inside (row_interval r (n ∷ ns) (o ∷ os) shape) k

  covering_row :
      (count row k : ℕ)
      → Covers (rows_from count row (n ∷ ns) (o ∷ os) shape) k
      → RowAt row (row + count) k
  unfolding rows_from
  covering_row zero row k h = absurd h
  covering_row (suc count) row k (inl h) = (row, omega arith, omega arith, h)
  covering_row (suc count) row k (inr h) =
      let r = covering_row count (row + 1) k h in (r.0, omega (arith, r.1), omega (arith, r.2), r.3)

  row-Covers :
      (count row k : ℕ)
      → RowAt row (row + count) k
      → Covers (rows_from count row (n ∷ ns) (o ∷ os) shape) k
  unfolding rows_from
  row-Covers zero row k r = absurd (omega (arith, r.1, r.2))
  row-Covers (suc count) row k (r, lo, hi, h) = elim (here row r lo) [
    | inl e ↦ inl (subst (λ (x : ℕ). Inside (row_interval x (n ∷ ns) (o ∷ os) shape) k) e h)
    | inr l ↦ inr (row-Covers count (row + 1) k (r, l, omega (arith, hi), h))
  ]
    where
      here : (row r : ℕ) → row ≤ r → (r ≡ row) ⊎ (row + 1 ≤ r)
      here row r h = omega arith

  -- Every row has the length of the last dimension.
  pub rows-All :
      (count row : ℕ)
      → 0 < n
      → All (λ (i : ℕ × ℕ). i.0 < i.1) (rows_from count row (n ∷ ns) (o ∷ os) shape)
  unfolding rows_from row_interval
  rows-All zero row h = tt
  rows-All (suc count) row h = (omega (arith, h), rows-All count (row + 1) h)

  row_interval-eq :
      (r s : ℕ) (ss : List ℕ)
      → reverse shape ≡ s ∷ ss
      → row_interval r (n ∷ ns) (o ∷ os) shape
        ≡ (o + s * position (row_coords r ns os) ss, o + s * position (row_coords r ns os) ss + n)
  unfolding row_interval
  row_interval-eq r s ss e =
      rw
        (
          flat_index-position (reverse (o ∷ row_coords r ns os)) shape,
          reverse-reverse (o ∷ row_coords r ns os),
          e,
        )
        refl

  -- The positions in the rows are those of the coordinates in the block.
  pub rows-Covers :
      (s k : ℕ) (ss : List ℕ)
      → reverse shape ≡ s ∷ ss
      → length ns ≡ length os
      → Covers (rows_from (volume ns) 0 (n ∷ ns) (o ∷ os) shape) k
        ↔ ((cs : List ℕ) × InBlock cs (o ∷ os) (n ∷ ns) × (position cs (s ∷ ss) ≡ k))
  rows-Covers s k ss e el = (forth, back)
    where
      forth :
          Covers (rows_from (volume ns) 0 (n ∷ ns) (o ∷ os) shape) k
          → (cs : List ℕ) × InBlock cs (o ∷ os) (n ∷ ns) × (position cs (s ∷ ss) ≡ k)
      forth h =
          let (r, lo, hi, i) = covering_row (volume ns) 0 k h in
          at_row r (omega (arith, hi))
            (subst (λ (x : ℕ × ℕ). Inside x k) (row_interval-eq r s ss e) i)
        where
          at_row :
              (r : ℕ)
              → r < volume ns
              → Inside
                  (
                    o + s * position (row_coords r ns os) ss,
                    o + s * position (row_coords r ns os) ss + n,
                  )
                  k
              → (cs : List ℕ) × InBlock cs (o ∷ os) (n ∷ ns) × (position cs (s ∷ ss) ≡ k)
          at_row r hr i = (
            (k - s * position (row_coords r ns os) ss) ∷ row_coords r ns os,
            (omega (arith, i.0), omega (arith, i.0, i.1), row_coords-InBlock r ns os el hr),
            omega (arith, i.0),
          )

      back :
          (cs : List ℕ) × InBlock cs (o ∷ os) (n ∷ ns) × (position cs (s ∷ ss) ≡ k)
          → Covers (rows_from (volume ns) 0 (n ∷ ns) (o ∷ os) shape) k
      back ([], h, q) = absurd h
      back (c ∷ cs, h, q) = row-Covers (volume ns) 0 k (
        row_of cs os ns,
        omega arith,
        omega (arith, row_of-lt cs os ns h.2),
        subst (λ (x : ℕ × ℕ). Inside x k) (sym (row_interval-eq (row_of cs os ns) s ss e))
            (rw (row_coords-row_of cs os ns h.2) (omega (arith, h.0, q), omega (arith, h.1, q))),
      )
