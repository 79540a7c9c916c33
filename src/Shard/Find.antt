-- ===== src/Shard/Find.antt =====
-- `ValidateCandidateFilterParams` and `FindCoveringCandidates`.
use asystem_astate.Base.{ℕ, ◌+◌, ltb, ◌==◌, if◌then◌else◌, List, [], ◌∷◌, length}
use asystem_astate.Shard.Types.{
  ShardedKey, ATensor, Shard, CopyOperation, no_candidates, target_dims, candidate_dims,
  candidate_dtype, candidate_shape, target_exceeds, Outcome, ok, throws, fault, ◌>>◌,
}
use asystem_astate.Shard.Cover.{check_candidates_coverage}
use asystem_astate.Shard.Copy.{find_covering_candidates_unsafe}

-- The loop over the dimensions of the target from `i` on: shape, offset and size. `max_shape` is the
-- shape less the offset, which may be negative, so the test adds the offset on the other side.
unfoldable pub check_target_size : ℕ → List ℕ → List ℕ → List ℕ → Outcome {0} Unit
check_target_size i [] os ns = ok tt
check_target_size i (s ∷ ss) (o ∷ os) (n ∷ ns) =
    let rest = check_target_size (i + 1) ss os ns in
    if ltb s (o + n) then throws (target_exceeds i) else rest
check_target_size i (s ∷ ss) _ _ = fault

-- The loop over the dimensions of a candidate, which has as many as the target.
unfoldable pub check_same_shape : List ℕ → List ℕ → Outcome {0} Unit
check_same_shape (c ∷ cs) (s ∷ ss) =
    let rest = check_same_shape cs ss in if c == s then rest else throws candidate_shape
check_same_shape _ _ = ok tt

unfoldable pub check_candidate : Shard → ShardedKey → ATensor → Outcome {0} Unit
check_candidate c target tensor =
    if length c.0.global_shape == length target.global_shape
    then (if c.1.dtype == tensor.dtype
        then check_same_shape c.0.global_shape target.global_shape
        else throws candidate_dtype)
    else throws candidate_dims

unfoldable pub check_candidates : List Shard → ShardedKey → ATensor → Outcome {0} Unit
check_candidates [] target tensor = ok tt
check_candidates (c ∷ candidates) target tensor = do
  check_candidate c target tensor
  check_candidates candidates target tensor

-- `ValidateCandidateFilterParams`
unfoldable pub validate_candidate_filter_params :
    List Shard → ShardedKey → ATensor → Outcome {0} Unit
validate_candidate_filter_params [] target tensor = throws no_candidates
validate_candidate_filter_params (c ∷ candidates) target tensor =
    if length target.global_shape == tensor.dim_num
    then (do
      check_target_size 0 target.global_shape target.global_offset tensor.size
      check_candidates (c ∷ candidates) target tensor
      check_candidates_coverage (c ∷ candidates) target tensor)
    else throws target_dims

-- `FindCoveringCandidates`
unfoldable pub find_covering_candidates :
    List Shard → ShardedKey → ATensor → Outcome (List CopyOperation)
find_covering_candidates candidates target tensor = do
  validate_candidate_filter_params candidates target tensor
  find_covering_candidates_unsafe candidates target tensor
