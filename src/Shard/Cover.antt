-- ===== src/Shard/Cover.antt =====
-- `CheckCandidatesCoverage`: do the intervals of the candidates cover those of the target?
use asystem_astate.Base.{
  ℕ, Bool, true, false, ◌&&◌, ltb, leb, max, if◌then◌else◌, List, [], ◌∷◌, ◌++◌,
}
use asystem_astate.Shard.Types.{
  ShardedKey, ATensor, Shard, no_coverage, missing_interval, Outcome, ok, throws, ◌>>=◌,
}
use asystem_astate.Shard.Flat.{flat_intervals}

-- `all_intervals`
unfoldable pub all_intervals : List Shard → Outcome (List (ℕ × ℕ))
all_intervals [] = ok []
all_intervals (candidate ∷ candidates) = do
  is ← flat_intervals candidate.0 candidate.1
  rest ← all_intervals candidates
  ok (is ++ rest)

-- The source sorts by `start` with `std::sort`; the merge does not depend on the order of intervals
-- with one start.
unfoldable pub insert_by_start : ℕ × ℕ → List (ℕ × ℕ) → List (ℕ × ℕ)
insert_by_start i [] = i ∷ []
insert_by_start i (j ∷ is) = if ltb j.0 i.0 then j ∷ insert_by_start i is else i ∷ j ∷ is

unfoldable pub sort_by_start : List (ℕ × ℕ) → List (ℕ × ℕ)
sort_by_start [] = []
sort_by_start (i ∷ is) = insert_by_start i (sort_by_start is)

-- The merged intervals, from the last one so far and the intervals that are left.
unfoldable pub merge_onto : ℕ × ℕ → List (ℕ × ℕ) → List (ℕ × ℕ)
merge_onto last [] = last ∷ []
merge_onto last (i ∷ is) =
    let extended = merge_onto (last.0, max last.1 i.1) is in
    let separate = last ∷ merge_onto i is in if leb i.0 last.1 then extended else separate

-- Does a merged interval contain the target interval?
unfoldable pub is_covered : List (ℕ × ℕ) → ℕ × ℕ → Bool
is_covered [] target = false
is_covered (i ∷ is) target =
    if leb i.0 target.0 && leb target.1 i.1 then true else is_covered is target

unfoldable pub check_targets : List (ℕ × ℕ) → List (ℕ × ℕ) → Outcome {0} Unit
check_targets merged [] = ok tt
check_targets merged (target ∷ targets) =
    if is_covered merged target
    then check_targets merged targets
    else throws (missing_interval target.0 target.1)

-- The test from the intervals on.
unfoldable pub check_sorted : List (ℕ × ℕ) → List (ℕ × ℕ) → Outcome {0} Unit
check_sorted [] targets = throws no_coverage
check_sorted (i ∷ is) targets = check_targets (merge_onto i is) targets

-- `CheckCandidatesCoverage`
unfoldable pub check_candidates_coverage : List Shard → ShardedKey → ATensor → Outcome {0} Unit
check_candidates_coverage candidates target_shard target_tensor = do
  targets ← flat_intervals target_shard target_tensor
  all ← all_intervals candidates
  check_sorted (sort_by_start all) targets
