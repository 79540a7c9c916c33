-- ===== src/Remote/Reshard.antt =====
-- `ReshardTensor` and `GetOrCreateLocalReshardTensors`: the columns that a sender gives away as tensors
-- of their own. The quotients and products are of sizes and are taken to fit.
use asystem_astate.Base.{
  ℕ, zero, suc, ◌+◌, ◌*◌, ◌/◌, ◌==◌, leb, Bool, not, ◌||◌, if◌then◌else◌, Option, none, some, ◌>>=◌,
  List, [], ◌∷◌, length,
}
use asystem_astate.Shard.Types.{ShardedKey}
use asystem_astate.Protocol.Keys.{same_key}

pub record ReshardingInfo : Type 0 where
  pub sharded_key : ShardedKey
  pub dim_index : ℕ
  pub start : ℕ
  pub offset : ℕ

-- `global_offset[1] += columns`; `none` where the vector is shorter, which is undefined.
unfoldable pub move_columns : ℕ → List ℕ → Option (List ℕ)
move_columns columns (row ∷ column ∷ offsets) = some (row ∷ (column + columns) ∷ offsets)
move_columns columns _ = none

-- The loop of `ReshardTensor` from `i` on, for `count` more turns.
unfoldable pub reshard_from : ShardedKey → ℕ → ℕ → ℕ → Option (List ReshardingInfo)
reshard_from key split_size i zero = some []
reshard_from key split_size i (suc count) = do
  moved ← move_columns (i * split_size) key.global_offset
  rest ← reshard_from key split_size (i + 1) count
  some (
      record {
        sharded_key = record key { global_offset = moved };
        dim_index = 1;
        start = i * split_size;
        offset = split_size;
      }
      ∷ rest)

-- `size(1)` and `global_shape[1]`; `none` where there is no second dimension, which throws or is
-- undefined.
unfoldable pub second : List ℕ → Option ℕ
second (n ∷ m ∷ ns) = some m
second _ = none

-- `ReshardTensor` for a tensor of the sizes, where `infer_tp_size` is 0 for every configured number that
-- is not positive. A division by zero is `none`.
unfoldable pub reshard_tensor : ℕ → ShardedKey → List ℕ → Option (List ReshardingInfo)
reshard_tensor infer_tp_size key sizes = if infer_tp_size == 0 then some [] else (do
  origin_size ← second sizes
  columns ← second key.global_shape
  let split_size = columns / infer_tp_size in
      if split_size == 0 then none else reshard_from key split_size 0 (origin_size / split_size))

-- A tensor of the result: the source, or its columns from `start` on.
pub data Part : Type 0 where
  whole : ShardedKey → Part
  narrow : ShardedKey → (dim_index start count : ℕ) → Part

-- The narrowed tensors of a source with `columns` columns. A range that ends behind them throws.
unfoldable pub narrow_all : ℕ → List ReshardingInfo → Option (List Part)
narrow_all columns [] = some []
narrow_all columns (reshard ∷ infos) = do
  rest ← narrow_all columns infos
  if leb (reshard.start + reshard.offset) columns
      then some (narrow reshard.sharded_key reshard.dim_index reshard.start reshard.offset ∷ rest)
      else none

-- `tensor_resharding_map_`
abbrev pub ReshardingMap : Type 0
ReshardingMap = List (ShardedKey × List ReshardingInfo)

unfoldable pub find_infos : ShardedKey → ReshardingMap → Option (List ReshardingInfo)
find_infos key [] = none
find_infos key (entry ∷ entries) =
    if same_key entry.0 key then some entry.1 else find_infos key entries

-- The lookup under the lock.
unfoldable pub find_or_reshard :
    ℕ → ShardedKey → List ℕ → ReshardingMap → Option (ReshardingMap × List ReshardingInfo)
find_or_reshard infer_tp_size key sizes resharding_map = elim (find_infos key resharding_map) [
  | some infos ↦ some (resharding_map, infos)
  | none ↦ do
    infos ← reshard_tensor infer_tp_size key sizes
    some ((key, infos) ∷ resharding_map, infos)
]

-- `GetOrCreateLocalReshardTensors` for a source of `byte_size` bytes; `is_resharding_key` is the answer
-- of `IsTensorReshardingKey`.
unfoldable pub get_or_create_local_reshard_tensors :
    Bool
    → (small_tensor_size byte_size infer_tp_size : ℕ) → ShardedKey
    → List ℕ
    → ReshardingMap
    → Option (ReshardingMap × List Part)
get_or_create_local_reshard_tensors is_resharding_key small_tensor_size byte_size infer_tp_size key
      sizes resharding_map =
    if not is_resharding_key || leb byte_size small_tensor_size
    then some (resharding_map, whole key ∷ [])
    else (do
      r ← find_or_reshard infer_tp_size key sizes resharding_map
      parts ←
          if length r.1 == 0
          then some (whole key ∷ [])
          else (do columns ← second sizes; narrow_all columns r.1)
      some (r.0, parts))
