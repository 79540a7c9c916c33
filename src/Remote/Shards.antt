-- ===== src/Remote/Shards.antt =====
-- `GetRemoteTensorShards`, and `IsContiguousShard` and `TryAdjustGlobalOffset` of src/core/utils.h: the
-- published shards that a target is read from, of which only the rows that it needs are left.
mod Ordered
pub mod Adjusted
pub mod Pieces
pub mod Deliver
mod Tests
use Prim.Native.String.{String}
use asystem_astate.Base.{
  ℕ, zero, suc, ◌+◌, ◌*◌, ◌==◌, Bool, true, false, ◌&&◌, if◌then◌else◌, Option, none, some, List,
  [], ◌∷◌, length, map, get_elem?,
}
use asystem_astate.Shard.Types.{
  ShardedKey, ATensor, Shard, CopyOperation, Outcome, ok, throws, fault, ◌>>=◌, prefix,
}
use asystem_astate.Shard.Find.{find_covering_candidates}
use text.Mathlib.Text.{◌==◌ as same_text}
use asystem_astate.Protocol.Keys.{same_key}

-- An `ATensor` with its strides and the place of its first element, both in items.
pub record Placed : Type 0 where
  pub tensor : ATensor
  pub stride : List ℕ
  pub storage_offset : ℕ

-- A published shard.
abbrev pub Meta : Type 0
Meta = ShardedKey × Placed

abbrev pub shard_of : Meta → Shard
shard_of meta = (meta.0, meta.1.tensor)

-- The loop of `IsContiguousShard` over the dimensions behind the first, which starts at the last: the
-- stride that it ends with, or `none` where it returns false.
unfoldable pub inner_stride : List ℕ → List ℕ → List ℕ → Option ℕ
inner_stride [] [] [] = some 1
inner_stride (n ∷ sizes) (m ∷ shape) (s ∷ strides) = elim (inner_stride sizes shape strides) [
  | none ↦ none
  | some stride ↦ if n == m && s == stride then some (stride * n) else none
]
inner_stride _ _ _ = none

unfoldable pub contiguous : List ℕ → List ℕ → List ℕ → Bool
contiguous (n ∷ sizes) (m ∷ shape) (s ∷ strides) = elim (inner_stride sizes shape strides) [
  | none ↦ false
  | some stride ↦ true
]
contiguous _ _ _ = true

-- `IsContiguousShard`
unfoldable pub is_contiguous_shard : Placed → List ℕ → Outcome Bool
is_contiguous_shard a copy_shape =
    if a.tensor.dim_num == length copy_shape
    then (do
      sizes ← prefix a.tensor.dim_num a.tensor.size
      strides ← prefix a.tensor.dim_num a.stride
      ok (contiguous sizes copy_shape strides))
    else ok false

-- The part of `TryAdjustGlobalOffset` under its test, from `stride`, `copy_offset` and `global_offset`.
unfoldable pub adjust :
    List ℕ → List ℕ → List ℕ → List ℕ → Placed → ShardedKey → Outcome (Placed × ShardedKey)
adjust (s ∷ strides) (o ∷ os) (g ∷ gs) copy_shape a key = ok (
  record a {
    tensor = record a.tensor { size = copy_shape };
    storage_offset = a.storage_offset + s * o;
  },
  record key { global_offset = (g + o) ∷ gs },
)
adjust _ _ _ copy_shape a key = fault

-- `TryAdjustGlobalOffset`, with the tensor and the key that it leaves.
unfoldable pub try_adjust_global_offset :
    Placed → List ℕ → List ℕ → ShardedKey → Outcome (Placed × ShardedKey)
try_adjust_global_offset a copy_shape copy_offset key = do
  c ← is_contiguous_shard a copy_shape
  if c then adjust a.stride copy_offset key.global_offset copy_shape a key else ok (a, key)

-- The published key, the adjusted key, and the tensor to read.
pub record Piece : Type 0 where
  pub raw : ShardedKey
  pub adjusted : ShardedKey
  pub placed : Placed

-- `atensor_list[index].second = placed`
unfoldable pub set_placed : List Meta → ℕ → Placed → List Meta
set_placed [] index placed = []
set_placed (meta ∷ metas) zero placed = (meta.0, placed) ∷ metas
set_placed (meta ∷ metas) (suc index) placed = meta ∷ set_placed metas index placed

-- What the loop over the operations adds for one of them, and the tensor that it leaves in the list.
unfoldable pub piece_of : Meta → Bool → CopyOperation → Outcome Piece
piece_of meta try_prune_redundant_shard op = do
  r ←
      if try_prune_redundant_shard
      then try_adjust_global_offset meta.1 op.copy_shape op.src_offset meta.0
      else ok (meta.1, meta.0)
  ok (record { raw = meta.0; adjusted = r.1; placed = r.0 })

-- The loop over the operations.
unfoldable pub pieces : List Meta → Bool → List CopyOperation → Outcome (List Piece)
pieces atensor_list try_prune_redundant_shard [] = ok []
pieces atensor_list try_prune_redundant_shard (op ∷ ops) =
    elim (get_elem? atensor_list op.candidate_index) [
      | none ↦ fault
      | some meta ↦ do
        piece ← piece_of meta try_prune_redundant_shard op
        rest ←
            pieces (set_placed atensor_list op.candidate_index piece.placed)
              try_prune_redundant_shard ops
        ok (piece ∷ rest)
    ]

-- The shards whose key has the name.
unfoldable pub named : String → List Meta → List Meta
named name [] = []
named name (meta ∷ metas) =
    let rest = named name metas in if same_text meta.0.key name then meta ∷ rest else rest

-- `tensor_meta_list_`, `none` for a null pointer, and `shard_mapping_`.
pub record Mappings : Type 0 where
  pub tensor_meta_list : Option (List Meta)
  pub shard_mapping : List (ShardedKey × List Piece)

unfoldable pub find_pieces : ShardedKey → List (ShardedKey × List Piece) → Option (List Piece)
find_pieces key [] = none
find_pieces key (entry ∷ entries) =
    if same_key entry.0 key then some entry.1 else find_pieces key entries

-- The shards that the call uses, where the transfer service answers with `published`.
unfoldable pub metas_of : List Meta → Mappings → List Meta
metas_of published c = elim c.tensor_meta_list [ none ↦ published | some metas ↦ metas ]

-- The pieces that the call computes.
unfoldable pub target_pieces : List Meta → ShardedKey → ATensor → Bool → Outcome (List Piece)
target_pieces metas sharded_key target try_prune_redundant_shard =
    let atensor_list = named sharded_key.key metas in
    do
      ops ← find_covering_candidates (map shard_of atensor_list) sharded_key target
      pieces atensor_list try_prune_redundant_shard ops

-- `GetRemoteTensorShards`. An exception leaves the mappings as the call has made them by then.
unfoldable pub get_remote_tensor_shards :
    List Meta → ShardedKey → ATensor → Bool → Mappings → Mappings × Outcome (List Piece)
get_remote_tensor_shards published sharded_key target try_prune_redundant_shard c =
    elim (find_pieces sharded_key c.shard_mapping) [
      | some found ↦ (c, ok found)
      | none ↦
          let metas = metas_of published c in
          let kept = record c { tensor_meta_list = some metas } in
          elim (target_pieces metas sharded_key target try_prune_redundant_shard) [
            | ok found ↦
                (record kept { shard_mapping = (sharded_key, found) ∷ c.shard_mapping }, ok found)
            | throws e ↦ (kept, throws e)
            | fault ↦ (kept, fault)
          ]
    ]
