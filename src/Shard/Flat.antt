-- ===== src/Shard/Flat.antt =====
-- Flat indices. The loops of the source run from the last dimension to the first, so the lists of
-- the functions below hold the last dimension first where nothing else is said.
use asystem_astate.Base.{
  ℕ, zero, suc, ◌+◌, ◌-◌, ◌*◌, ◌/◌, ◌%◌, ◌==◌, if◌then◌else◌, List, [], ◌∷◌, length, reverse,
}
use asystem_astate.Shard.Types.{ShardedKey, ATensor, Outcome, ok, ◌>>=◌, prefix}

-- The loop of `CoordsToFlatIndex`.
unfoldable pub flat_loop : ℕ → ℕ → List ℕ → List ℕ → ℕ
flat_loop flat_index stride (c ∷ cs) (s ∷ ss) =
    flat_loop (flat_index + c * stride) (stride * s) cs ss
flat_loop flat_index stride _ _ = flat_index

-- The vectors are in the source's order.
unfoldable pub coords_to_flat_index : List ℕ → List ℕ → ℕ
coords_to_flat_index coords shape = flat_loop 0 1 (reverse coords) (reverse shape)

-- `num_rows`, from the sizes of all dimensions but the last in the source's order.
unfoldable pub row_count : ℕ → List ℕ → ℕ
row_count num_rows [] = num_rows
row_count num_rows (n ∷ ns) = row_count (num_rows * n) ns

-- The coordinates of a row in all dimensions but the last, from sizes and offsets.
unfoldable pub row_coords : ℕ → List ℕ → List ℕ → List ℕ
row_coords temp (n ∷ ns) (o ∷ os) = (temp % n + o) ∷ row_coords (temp / n) ns os
row_coords temp _ _ = []

-- The interval of row `row_idx`.
unfoldable pub row_interval : ℕ → List ℕ → List ℕ → List ℕ → ℕ × ℕ
row_interval row_idx (n ∷ ns) (o ∷ os) global_shape =
    let flat_start = coords_to_flat_index (reverse (o ∷ row_coords row_idx ns os)) global_shape in
    (flat_start, flat_start + n)
row_interval row_idx _ _ global_shape = (0, 0)

-- The intervals of `count` rows from `row_idx` on.
unfoldable pub rows_from : ℕ → ℕ → List ℕ → List ℕ → List ℕ → List (ℕ × ℕ)
rows_from zero row_idx ns os global_shape = []
rows_from (suc count) row_idx ns os global_shape =
    row_interval row_idx ns os global_shape ∷ rows_from count (row_idx + 1) ns os global_shape

-- `ShardedTensorToFlatIntervals`
unfoldable pub flat_intervals : ShardedKey → ATensor → Outcome (List (ℕ × ℕ))
flat_intervals key tensor =
    let dims = length key.global_shape in
    if dims == 0 then ok ((0, 1) ∷ []) else (do
      leading ← prefix (dims - 1) tensor.size
      let num_rows = row_count 1 leading
      if num_rows == 0 then ok [] else (do
        sizes ← prefix dims tensor.size
        offsets ← prefix dims key.global_offset
        ok (rows_from num_rows 0 (reverse sizes) (reverse offsets) key.global_shape)))
