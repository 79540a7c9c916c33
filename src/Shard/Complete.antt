-- ===== src/Shard/Complete.antt =====
-- `FindCoveringCandidates`: the operations that it returns fill the target.
use asystem_astate.Base.{
  ℕ, zero, suc, ◌+◌, List, [], ◌∷◌, length, reverse, some, some-injective, ◌≡◌, refl, sym, ◌∙◌,
  subst, ap, inl, inr, All, Any, Any-imp, get_elem?, arith,
}
use mathlib.Core.List.{reverse-reverse}
use asystem_astate.Shard.Types.{Shard, CopyOperation, Error, Outcome, ok, throws, fault}
use asystem_astate.Shard.Find.{validate_candidate_filter_params, find_covering_candidates}
use asystem_astate.Shard.Copy.{find_covering_candidates_unsafe}
use asystem_astate.Shard.Blocks.{InBlock, Within, position-injective, Within-reverse, position}
use asystem_astate.Shard.Rows.{Shaped, Holds}
use asystem_astate.Shard.Intervals.{HoldsAt}
use asystem_astate.Shard.Coverage.{HeldBy, AllShaped, check_candidates_coverage-decides}
use asystem_astate.Shard.Regions.{
  InRegion, Aligned, CopiesShared, Belongs, Serves, AllAligned,
  find_covering_candidates_unsafe-Regions,
}
use asystem_astate.Shard.Validate.{FitsIn, Fits, andthen-ok, validate-Checked}

InBlock-Within : (cs os ns ss : List ℕ) → InBlock cs os ns → FitsIn os ns ss → Within cs ss
InBlock-Within [] [] [] [] h f = tt
InBlock-Within [] [] [] (s ∷ ss) h f = absurd f
InBlock-Within [] [] (n ∷ ns) ss h f = absurd h
InBlock-Within [] (o ∷ os) ns ss h f = absurd h
InBlock-Within (c ∷ cs) [] ns ss h f = absurd h
InBlock-Within (c ∷ cs) (o ∷ os) [] ss h f = absurd h
InBlock-Within (c ∷ cs) (o ∷ os) (n ∷ ns) [] h f = absurd f
InBlock-Within (c ∷ cs) (o ∷ os) (n ∷ ns) (s ∷ ss) h f =
    (omega (arith, h.1, f.0), InBlock-Within cs os ns ss h.2 f.1)

-- The row-major position of the coordinates, in the order of the dimensions.
abbrev position_of : List ℕ → List ℕ → ℕ
position_of coords shape = position (reverse coords) (reverse shape)

-- Coordinates within a shape have one position.
position_of-injective :
    (cs ds shape : List ℕ)
    → Within cs shape
    → Within ds shape
    → position_of cs shape ≡ position_of ds shape
    → cs ≡ ds
position_of-injective cs ds shape h k e =
    sym (reverse-reverse cs)
    ∙ ap reverse (
        position-injective (reverse cs) (reverse ds) (reverse shape) (Within-reverse cs shape h)
          (Within-reverse ds shape k) e)
    ∙ reverse-reverse ds

-- The candidate that holds a position.
HeldBy-holder :
    (candidates : List Shard) (k : ℕ)
    → HeldBy candidates k
    → (j : ℕ) × (c : Shard) × (get_elem? candidates j ≡ some c) × HoldsAt c.0 c.1 k
HeldBy-holder [] k h = absurd h
HeldBy-holder (c ∷ candidates) k (inl h) = (0, c, refl, h)
HeldBy-holder (c ∷ candidates) k (inr h) =
    let (j, d, e, g) = HeldBy-holder candidates k h in (suc j, d, e, g)

All-get :
    (P : Shard → Type 0) (candidates : List Shard) (j : ℕ) (c : Shard)
    → All P candidates
    → get_elem? candidates j ≡ some c
    → P c
All-get P [] j c h e = absurd (ground (arith, e))
All-get P (d ∷ candidates) zero c h e = subst P (some-injective d c e) h.0
All-get P (d ∷ candidates) (suc j) c h e = All-get P candidates j c h.1 e

pub align :
    (candidates : List Shard) (t : Shard)
    → AllShaped candidates
    → All (λ (c : Shard). c.0.global_shape ≡ t.0.global_shape) candidates
    → AllAligned candidates t
align [] t h k = tt
align (c ∷ candidates) t h k = ((h.0, ap length k.0), align candidates t h.1 k.1)

pub ok-injective : (a b : List CopyOperation) → ok a ≡ ok b → a ≡ b
ok-injective a b e = ap unwrap e
  where
    unwrap : Outcome (List CopyOperation) → List CopyOperation
    unwrap (ok x) = x
    unwrap (throws r) = []
    unwrap fault = []

throws≢ok : {A : Type 0} (r : Error) (a : A) → throws r ≡ ok a → ⊥
throws≢ok r a e = ground (arith, e)

-- The element at `coords` of the target is copied from the candidate that the operation names. The
-- region starts at the same coordinates of the whole tensor on both sides, so that each element in
-- it goes to its own place.
abbrev pub Filled : List Shard → Shard → List ℕ → CopyOperation → Type 0
Filled candidates t coords op =
    (c : Shard) × (get_elem? candidates op.candidate_index ≡ some c)
    × Aligned c t op
    × InRegion coords c.0.global_offset op.src_offset op.copy_shape
    × InRegion coords t.0.global_offset op.target_offset op.copy_shape

-- The holder of the element's position serves the element.
served :
    (candidates : List Shard) (t : Shard) (ops : List CopyOperation) (coords : List ℕ)
    → All Fits candidates
    → Fits t
    → All (λ (c : Shard). c.0.global_shape ≡ t.0.global_shape) candidates
    → find_covering_candidates_unsafe candidates t.0 t.1 ≡ ok ops
    → Holds t.0 t.1 coords
    → ((found : List CopyOperation) × (find_covering_candidates_unsafe candidates t.0 t.1
          ≡ ok found)
        × All (Belongs 0 candidates t) found
        × Serves 0 candidates t found)
    → ((j : ℕ) × (c : Shard) × (get_elem? candidates j ≡ some c)
        × HoldsAt c.0 c.1 (position_of coords t.0.global_shape))
    → Any (Filled candidates t coords) ops
served candidates t ops coords hf fits same e h (found, e', _, serves)
      (j, c, get, (cs, hcs, index)) =
    subst (Any (Filled candidates t coords)) (ok-injective found ops (sym e' ∙ e))
      (Any-imp fill found (serves j c coords get held h))
  where
    shape : c.0.global_shape ≡ t.0.global_shape
    shape = All-get (λ x. x.0.global_shape ≡ t.0.global_shape) candidates j c same get

    place : cs ≡ coords
    place =
        position_of-injective cs coords t.0.global_shape
          (subst (Within cs) shape (
            InBlock-Within cs c.0.global_offset c.1.size c.0.global_shape hcs
              (All-get Fits candidates j c hf get)))
          (InBlock-Within coords t.0.global_offset t.1.size t.0.global_shape h fits)
          (sym (ap (position_of cs) shape) ∙ index)

    held : Holds c.0 c.1 coords
    held = subst (Holds c.0 c.1) place hcs

    fill :
        (op : CopyOperation)
        → (op.candidate_index ≡ 0 + j) × CopiesShared c t op
        → Filled candidates t coords op
    fill op (i, copies) = (
      c,
      ap (get_elem? candidates) (i ∙ omega arith) ∙ get,
      copies.0,
      (copies.1 coords).0.1 (held, h),
      (copies.1 coords).1.1 (held, h),
    )

-- If the call returns operations, all vectors have one element for each dimension, and every candidate
-- lies in the whole tensor, then each element of the target is copied by one of the operations from
-- the same coordinates of a candidate.
pub find_covering_candidates-Filled :
    (candidates : List Shard) (t : Shard) (ops : List CopyOperation) (coords : List ℕ)
    → AllShaped candidates
    → Shaped t.0 t.1
    → All Fits candidates
    → find_covering_candidates candidates t.0 t.1 ≡ ok ops
    → Holds t.0 t.1 coords
    → Any (Filled candidates t coords) ops
unfolding find_covering_candidates
find_covering_candidates-Filled candidates t ops coords hc ht hf e h =
    let v =
      andthen-ok (validate_candidate_filter_params candidates t.0 t.1)
        (find_covering_candidates_unsafe candidates t.0 t.1) ops e in
    let (fits, same, covers) = validate-Checked candidates t.0 t.1 ht v.0 in
    elim (check_candidates_coverage-decides candidates t.0 t.1 (position_of coords t.0.global_shape)
      hc ht (coords, h, refl)) [
        | inl d ↦
            served candidates t ops coords hf fits same v.1 h
              (find_covering_candidates_unsafe-Regions candidates t ht (align candidates t hc same))
              (HeldBy-holder candidates (position_of coords t.0.global_shape)
                (d.0 (position_of coords t.0.global_shape) (coords, h, refl)))
        | inr (_, r, d) ↦ absurd (throws≢ok r tt (sym d ∙ covers))
      ]
