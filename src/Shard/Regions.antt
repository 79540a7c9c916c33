-- ===== src/Shard/Regions.antt =====
-- `FindCoveringCandidatesUnsafe`: every operation copies the elements that a candidate and the
-- target share, between the places that both give them.
use asystem_astate.Base.{
  ℕ, zero, suc, ◌+◌, List, [], ◌∷◌, length, Option, none, some, ◌≡◌, refl, sym, ◌∙◌, subst, inl,
  inr, ◌↔◌, All, All-imp, Any, Any-imp, get_elem?, arith, some-injective,
}
use asystem_astate.Shard.Types.{Shard, CopyOperation, ok}
use asystem_astate.Shard.Copy.{add_op, copy_op, find_from, find_covering_candidates_unsafe}
use asystem_astate.Shard.Intersect.{sums, Intersects, intersect-Intersects}
use asystem_astate.Shard.Blocks.{InBlock}
use asystem_astate.Shard.Rows.{Shaped, Holds}

-- The coordinates that an operation names, from the side of a shard with offset vector `base` in
-- which the region starts at `offset`.
abbrev pub InRegion : List ℕ → List ℕ → List ℕ → List ℕ → Type 0
InRegion coords base offset shape = InBlock coords (sums base offset) shape

-- The region of the operation starts at the same coordinates of the whole tensor on both sides.
abbrev pub Aligned : Shard → Shard → CopyOperation → Type 0
Aligned c t op = sums c.0.global_offset op.src_offset ≡ sums t.0.global_offset op.target_offset

-- The operation copies between the same coordinates, and names exactly the elements that the
-- candidate and the target share, on both sides.
abbrev pub CopiesShared : Shard → Shard → CopyOperation → Type 0
CopiesShared c t op =
    Aligned c t op
    × ((coords : List ℕ)
        → (InRegion coords c.0.global_offset op.src_offset op.copy_shape
            ↔ (Holds c.0 c.1 coords × Holds t.0 t.1 coords))
          × (InRegion coords t.0.global_offset op.target_offset op.copy_shape
              ↔ (Holds c.0 c.1 coords × Holds t.0 t.1 coords)))

copy_op-CopiesShared :
    (index : ℕ) (c t : Shard) (r : List ℕ × List ℕ)
    → Intersects c.0.global_offset c.1.size t.0.global_offset t.1.size (some r)
    → CopiesShared c t (copy_op index c.0 t.0 r)
unfolding copy_op
copy_op-CopiesShared index c t r h =
    (h.0 ∙ sym h.1, λ coords. (rw h.0 (h.2 coords), rw h.1 (h.2 coords)))

-- The operation belongs to a candidate of those that start at `index`.
abbrev pub Belongs : ℕ → List Shard → Shard → CopyOperation → Type 0
Belongs index candidates t op =
    (j : ℕ) × (c : Shard) × (op.candidate_index ≡ index + j)
    × (get_elem? candidates j ≡ some c)
    × CopiesShared c t op

-- A candidate that shares an element with the target has an operation.
abbrev pub Serves : ℕ → List Shard → Shard → List CopyOperation → Type 0
Serves index candidates t ops =
    (j : ℕ) (c : Shard) (coords : List ℕ)
    → get_elem? candidates j ≡ some c
    → Holds c.0 c.1 coords
    → Holds t.0 t.1 coords
    → Any (λ (op : CopyOperation). (op.candidate_index ≡ index + j) × CopiesShared c t op) ops

module _ (index : ℕ) (c : Shard) (candidates : List Shard) (t : Shard)
    (ops : List CopyOperation) where
  abbrev Block : Option (List ℕ × List ℕ) → Type 0
  Block = Intersects c.0.global_offset c.1.size t.0.global_offset t.1.size

  Belongs-later :
      (op : CopyOperation)
      → Belongs (index + 1) candidates t op
      → Belongs index (c ∷ candidates) t op
  Belongs-later op (j, d, e, g, s) = (suc j, d, omega (arith, e), g, s)

  add_op-Belongs :
      (r : Option (List ℕ × List ℕ))
      → Block r
      → All (Belongs (index + 1) candidates t) ops
      → All (Belongs index (c ∷ candidates) t) (add_op index c.0 t.0 r ops)
  unfolding add_op copy_op
  add_op-Belongs none h k = All-imp Belongs-later ops k
  add_op-Belongs (some r) h k =
      ((0, c, omega arith, refl, copy_op-CopiesShared index c t r h), All-imp Belongs-later ops k)

  later :
      (j : ℕ) (d : Shard) (op : CopyOperation)
      → (op.candidate_index ≡ index + 1 + j) × CopiesShared d t op
      → (op.candidate_index ≡ index + suc j) × CopiesShared d t op
  later j d op h = (omega (arith, h.0), h.1)

  add_op-Serves :
      (r : Option (List ℕ × List ℕ))
      → Block r
      → Serves (index + 1) candidates t ops
      → Serves index (c ∷ candidates) t (add_op index c.0 t.0 r ops)
  unfolding add_op copy_op
  add_op-Serves none h k zero d coords e a b =
      absurd
        (h coords (subst (λ (x : Shard). Holds x.0 x.1 coords) (sym (some-injective c d e)) a) b)
  add_op-Serves none h k (suc j) d coords e a b = Any-imp (later j d) ops (k j d coords e a b)
  add_op-Serves (some r) h k zero d coords e a b = inl (
    omega arith,
    subst (λ (x : Shard). CopiesShared x t (copy_op index c.0 t.0 r)) (some-injective c d e)
        (copy_op-CopiesShared index c t r h),
  )
  add_op-Serves (some r) h k (suc j) d coords e a b =
      inr (Any-imp (later j d) ops (k j d coords e a b))

-- Shards that have their vectors of the right length and as many dimensions as the target.
abbrev pub AllAligned : List Shard → Shard → Type 0
AllAligned candidates t =
    All (λ (c : Shard). Shaped c.0 c.1 × (length c.0.global_shape ≡ length t.0.global_shape))
      candidates

find_from-Regions :
    (index : ℕ) (candidates : List Shard) (t : Shard)
    → Shaped t.0 t.1
    → AllAligned candidates t
    → (ops : List CopyOperation) × (find_from index candidates t.0 t.1 ≡ ok ops)
      × All (Belongs index candidates t) ops
      × Serves index candidates t ops
unfolding find_from
find_from-Regions index [] t ht hs = ([], refl, tt, λ j c coords e. absurd (ground (arith, e)))
find_from-Regions index (c ∷ candidates) t ht hs =
    let dims = length t.0.global_shape in
    let (r, e, f) =
      intersect-Intersects dims c.0.global_offset c.1.size t.0.global_offset t.1.size
        (hs.0.0.0 ∙ hs.0.1) (hs.0.0.1 ∙ hs.0.1) ht.0 ht.1 in
    let (ops, e', g, s) = find_from-Regions (index + 1) candidates t ht hs.1 in
    (
      add_op index c.0 t.0 r ops,
      rw (e, e') refl,
      add_op-Belongs index c candidates t ops r f g,
      add_op-Serves index c candidates t ops r f s,
    )

pub find_covering_candidates_unsafe-Regions :
    (candidates : List Shard) (t : Shard)
    → Shaped t.0 t.1
    → AllAligned candidates t
    → (ops : List CopyOperation) × (find_covering_candidates_unsafe candidates t.0 t.1 ≡ ok ops)
      × All (Belongs 0 candidates t) ops
      × Serves 0 candidates t ops
unfolding find_covering_candidates_unsafe
find_covering_candidates_unsafe-Regions candidates t ht hs = find_from-Regions 0 candidates t ht hs

-- If all vectors have one element for each dimension of the target, the search for regions returns.
-- Each operation names a candidate, and on both sides exactly the elements that this candidate and
-- the target share.
find_covering_candidates_unsafe-Belongs :
    (candidates : List Shard) (t : Shard)
    → Shaped t.0 t.1
    → AllAligned candidates t
    → (ops : List CopyOperation) × (find_covering_candidates_unsafe candidates t.0 t.1 ≡ ok ops)
      × All (Belongs 0 candidates t) ops
find_covering_candidates_unsafe-Belongs candidates t ht hs =
    let (ops, e, belongs, _) = find_covering_candidates_unsafe-Regions candidates t ht hs in
    (ops, e, belongs)
