-- ===== src/Shard/Returns.antt =====
-- `FindCoveringCandidates` returns, and fills the target, where the candidates can.
use asystem_astate.Base.{
  ℕ, ◌+◌, List, [], ◌∷◌, length, reverse, ◌≡◌, refl, subst, All, Any, inl, inr, eq→==, le→ltb,
}
use asystem_astate.Shard.Types.{Shard, CopyOperation, ok}
use asystem_astate.Shard.Blocks.{position}
use asystem_astate.Shard.Cover.{check_candidates_coverage}
use asystem_astate.Shard.Find.{
  check_target_size, check_same_shape, check_candidate, check_candidates,
  validate_candidate_filter_params, find_covering_candidates,
}
use asystem_astate.Shard.Copy.{find_covering_candidates_unsafe}
use asystem_astate.Shard.Rows.{Shaped, Holds}
use asystem_astate.Shard.Coverage.{AllShaped, Covered, check_candidates_coverage-decides}
use asystem_astate.Shard.Regions.{find_covering_candidates_unsafe-Regions}
use asystem_astate.Shard.Validate.{FitsIn, Fits}
use asystem_astate.Shard.Complete.{Filled, align, find_covering_candidates-Filled}

-- The candidate has the shape and the data type of the target.
abbrev pub Matches : Shard → Shard → Type 0
Matches t c = (c.0.global_shape ≡ t.0.global_shape) × (c.1.dtype ≡ t.1.dtype)

FitsIn-check_target_size :
    (i : ℕ) (ss os ns : List ℕ) → FitsIn os ns ss → check_target_size i ss os ns ≡ ok tt
unfolding check_target_size
FitsIn-check_target_size i [] os ns h = refl
FitsIn-check_target_size i (s ∷ ss) [] [] h = absurd h
FitsIn-check_target_size i (s ∷ ss) [] (n ∷ ns) h = absurd h
FitsIn-check_target_size i (s ∷ ss) (o ∷ os) [] h = absurd h
FitsIn-check_target_size i (s ∷ ss) (o ∷ os) (n ∷ ns) h =
    rw (le→ltb s (o + n) h.0) (FitsIn-check_target_size (i + 1) ss os ns h.1)

check_same_shape-same : (ss : List ℕ) → check_same_shape ss ss ≡ ok tt
unfolding check_same_shape
check_same_shape-same [] = refl
check_same_shape-same (s ∷ ss) = rw (eq→== s s refl) (check_same_shape-same ss)

Matches-check_candidates :
    (candidates : List Shard) (t : Shard)
    → All (Matches t) candidates
    → check_candidates candidates t.0 t.1 ≡ ok tt
unfolding check_candidates check_candidate
Matches-check_candidates [] t h = refl
Matches-check_candidates (c ∷ candidates) t h =
    rw
      (
        h.0.0,
        h.0.1,
        eq→== (length t.0.global_shape) (length t.0.global_shape) refl,
        eq→== t.1.dtype t.1.dtype refl,
        check_same_shape-same t.0.global_shape,
      )
      (Matches-check_candidates candidates t h.1)

validate-returns :
    (candidates : List Shard) (t : Shard)
    → (candidates ≡ [] → ⊥)
    → length t.0.global_shape ≡ t.1.dim_num
    → Fits t
    → All (Matches t) candidates
    → check_candidates_coverage candidates t.0 t.1 ≡ ok tt
    → validate_candidate_filter_params candidates t.0 t.1 ≡ ok tt
unfolding validate_candidate_filter_params
validate-returns [] t n d f m c = absurd (n refl)
validate-returns (x ∷ candidates) t n d f m c =
    rw
      (
        eq→== (length t.0.global_shape) t.1.dim_num d,
        FitsIn-check_target_size 0 t.0.global_shape t.0.global_offset t.1.size f,
        Matches-check_candidates (x ∷ candidates) t m,
      )
      c

pub shapes :
    (candidates : List Shard) (t : Shard)
    → All (Matches t) candidates
    → All (λ (c : Shard). c.0.global_shape ≡ t.0.global_shape) candidates
shapes [] t h = tt
shapes (c ∷ candidates) t h = (h.0.0, shapes candidates t h.1)

-- Take a target and candidates whose vectors have one element for each dimension, that lie in the
-- whole tensor and agree in shape and data type, the target's dimensions being those of its tensor,
-- and the candidates together hold every element of the target. Then FindCoveringCandidates returns
-- operations, and each element of the target is in the region of one of them, on the side of a
-- candidate and on the side of the target, and this region starts at the same coordinates of the
-- whole tensor on both sides.
pub find_covering_candidates-returns :
    (candidates : List Shard) (t : Shard) (coords : List ℕ)
    → AllShaped candidates
    → Shaped t.0 t.1
    → length t.0.global_shape ≡ t.1.dim_num
    → Fits t
    → All Fits candidates
    → All (Matches t) candidates
    → Covered candidates t.0 t.1
    → Holds t.0 t.1 coords
    → (ops : List CopyOperation) × (find_covering_candidates candidates t.0 t.1 ≡ ok ops)
      × Any (Filled candidates t coords) ops
unfolding find_covering_candidates
find_covering_candidates-returns candidates t coords hc ht d f fs m covered h =
    let regions =
      find_covering_candidates_unsafe-Regions candidates t ht
        (align candidates t hc (shapes candidates t m)) in
    let r = returned regions.0 regions.1 in
    (regions.0, r, find_covering_candidates-Filled candidates t regions.0 coords hc ht fs r h)
  where
    k₀ : ℕ
    k₀ = position (reverse coords) (reverse t.0.global_shape)

    nonempty : candidates ≡ [] → ⊥
    nonempty e = subst (λ (cs : List Shard). Covered cs t.0 t.1) e covered k₀ (coords, h, refl)

    coverage : check_candidates_coverage candidates t.0 t.1 ≡ ok tt
    coverage =
        elim (check_candidates_coverage-decides candidates t.0 t.1 k₀ hc ht (coords, h, refl)) [
          | inl r ↦ r.1
          | inr (n, _, _) ↦ absurd (n covered)
        ]

    returned :
        (ops : List CopyOperation)
        → find_covering_candidates_unsafe candidates t.0 t.1 ≡ ok ops
        → find_covering_candidates candidates t.0 t.1 ≡ ok ops
    returned ops e = rw (validate-returns candidates t nonempty d f m coverage) e
