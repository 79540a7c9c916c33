-- ===== src/Shard/Copy.antt =====
-- `FindCoveringCandidatesUnsafe`: the regions to copy. Also the region that
-- `CopyTensorWithShardedKeysUnsafe` computes for itself; the copy is a call of the tensor library.
use asystem_astate.Base.{
  ℕ, zero, suc, ◌+◌, ◌-◌, leb, max, min, if◌then◌else◌, List, [], ◌∷◌, length, Option, none, some,
}
use asystem_astate.Shard.Types.{
  ShardedKey, ATensor, Shard, CopyOperation, Outcome, ok, fault, ◌>>=◌,
}

unfoldable pub add_dimension : ℕ → ℕ → Option (List ℕ × List ℕ) → Option (List ℕ × List ℕ)
add_dimension start end none = none
add_dimension start end (some r) = some (start ∷ r.0, end ∷ r.1)

-- `intersect_start` and `intersect_end`, from the offsets and sizes of the candidate and the target;
-- `none` where some dimension has no overlap.
unfoldable pub intersect :
    ℕ → List ℕ → List ℕ → List ℕ → List ℕ → Outcome (Option (List ℕ × List ℕ))
unfolding add_dimension
intersect zero os ns ps ms = ok (some ([], []))
intersect (suc dims) (o ∷ os) (n ∷ ns) (p ∷ ps) (m ∷ ms) =
    let start = max o p in
    let end = min (o + n) (p + m) in
    let rest = intersect dims os ns ps ms in
    if leb end start then ok none else (do r ← rest; ok (add_dimension start end r))
intersect (suc dims) _ _ _ _ = fault

-- Elementwise difference; the source subtracts at most the minuend.
unfoldable pub differences : List ℕ → List ℕ → List ℕ
differences (x ∷ xs) (y ∷ ys) = (x - y) ∷ differences xs ys
differences _ _ = []

unfoldable pub copy_op : ℕ → ShardedKey → ShardedKey → List ℕ × List ℕ → CopyOperation
copy_op index candidate target (intersect_start, intersect_end) = record {
  candidate_index = index;
  src_offset = differences intersect_start candidate.global_offset;
  target_offset = differences intersect_start target.global_offset;
  copy_shape = differences intersect_end intersect_start;
}

-- The operation of the candidate, if it has one, and those of the candidates behind it.
unfoldable pub add_op :
    ℕ → ShardedKey → ShardedKey → Option (List ℕ × List ℕ) → List CopyOperation → List CopyOperation
unfolding copy_op
add_op index candidate target none ops = ops
add_op index candidate target (some r) ops = copy_op index candidate target r ∷ ops

-- The loop over the candidates from `index` on.
unfoldable pub find_from : ℕ → List Shard → ShardedKey → ATensor → Outcome (List CopyOperation)
find_from index [] target tensor = ok []
find_from index (c ∷ candidates) target tensor = do
  r ←
      intersect (length target.global_shape) c.0.global_offset c.1.size target.global_offset
        tensor.size
  ops ← find_from (index + 1) candidates target tensor
  ok (add_op index c.0 target r ops)

-- `FindCoveringCandidatesUnsafe`
unfoldable pub find_covering_candidates_unsafe :
    List Shard → ShardedKey → ATensor → Outcome (List CopyOperation)
find_covering_candidates_unsafe candidates target tensor = find_from 0 candidates target tensor

-- The vectors `src_offset`, `target_offset` and `copy_shape` of `CopyTensorWithShardedKeysUnsafe`.
unfoldable pub add_region :
    ℕ → ℕ → ℕ → Option (List ℕ × List ℕ × List ℕ) → Option (List ℕ × List ℕ × List ℕ)
add_region src target shape none = none
add_region src target shape (some (ss, ts, ns)) = some (src ∷ ss, target ∷ ts, shape ∷ ns)

unfoldable pub copy_region :
    ℕ → List ℕ → List ℕ → List ℕ → List ℕ → Outcome (Option (List ℕ × List ℕ × List ℕ))
unfolding add_region
copy_region zero os ns ps ms = ok (some ([], [], []))
copy_region (suc dims) (o ∷ os) (n ∷ ns) (p ∷ ps) (m ∷ ms) =
    let start = max o p in
    let end = min (o + n) (p + m) in
    let rest = copy_region dims os ns ps ms in
    if leb end start
    then ok none
    else (do r ← rest; ok (add_region (start - o) (start - p) (end - start) r))
copy_region (suc dims) _ _ _ _ = fault
