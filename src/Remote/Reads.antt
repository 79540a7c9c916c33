-- ===== src/Remote/Reads.antt =====
-- `ReadTensors` for a tensor that is not read ahead, with the part of `TensorTransferPull::Get`
-- (src/transfer/tensor_transfer_pull.cpp) that says what is read from where.
use asystem_astate.Base.{
  ℕ, ◌+◌, ◌*◌, ◌%◌, ◌==◌, ltb, Bool, not, ◌&&◌, if◌then◌else◌, Option, none, some, ◌>>=◌, List, [],
  ◌∷◌, length, get_elem?,
}
use asystem_astate.Shard.Types.{ShardedKey}
use asystem_astate.Protocol.Nodes.{NodeInfo}
use asystem_astate.Remote.Copies.{numel}
use asystem_astate.Remote.Shards.{Placed, Piece}

-- The fields of `TensorRDMAInfo` that the call reads; `storage_offset` is that of its `atensor`.
pub record TensorRdmaInfo : Type 0 where
  pub addr : ℕ
  pub size : ℕ
  pub node_info : NodeInfo
  pub storage_offset : ℕ

-- A tensor in the local cache from byte `local` on, and the bytes that are received for it.
pub record Fetch : Type 0 where
  pub piece : Piece
  pub local : ℕ
  pub node_info : NodeInfo
  pub remote_addr : ℕ
  pub byte_size : ℕ

-- `remote_byte_offset`, for an asked tensor with items of `item_size` bytes.
unfoldable pub remote_byte_offset : ℕ → ℕ → ℕ → ℕ
remote_byte_offset item_size asked published =
    if not (asked == published) && not (asked == 0)
    then asked * item_size
    else published * item_size

-- Items sizes by data type, the answers of the transport, the rank of the receiver, and what the
-- senders have published of a key.
module _ (item_size : ℕ → ℕ) (receives : NodeInfo → ℕ → ℕ → Bool) (role_rank : ℕ)
    (rdma_infos : ShardedKey → List TensorRdmaInfo) where
  -- `GetTensorTotalByteSize`
  unfoldable pub total_byte_size : Placed → ℕ
  total_byte_size a = numel a.tensor.size * item_size a.tensor.dtype

  -- The sender that is read from: none, if nobody has published the key.
  unfoldable pub chosen_info : ShardedKey → Option TensorRdmaInfo
  chosen_info key = let infos = rdma_infos key in get_elem? infos (role_rank % length infos)

  -- The part of `Get` behind the wait; an exception or a failure is `none`.
  unfoldable pub get_remote : Piece → ℕ → Option Fetch
  get_remote piece local = do
    info ← chosen_info piece.raw
    let offset =
          remote_byte_offset (item_size piece.placed.tensor.dtype) piece.placed.storage_offset
            info.storage_offset in
        let size = total_byte_size piece.placed in
        if ltb info.size (offset + size)
        then none
        else if receives info.node_info (info.addr + offset) size
        then some (record {
          piece = piece;
          local = local;
          node_info = info.node_info;
          remote_addr = info.addr + offset;
          byte_size = size;
        })
        else none

  -- The loop that lays the tensors out in a cache of `total_size` bytes, from `offset` on.
  unfoldable pub lay_out : ℕ → ℕ → List Piece → Option (List (ℕ × Piece))
  lay_out total_size offset [] = some []
  lay_out total_size offset (piece ∷ pieces) =
      let next = offset + total_byte_size piece.placed in
      let rest = lay_out total_size next pieces in
      if ltb total_size next then none else (do r ← rest; some ((offset, piece) ∷ r))

  -- The loop over the queries.
  unfoldable pub get_queries : List (ℕ × Piece) → Option (List Fetch)
  get_queries [] = some []
  get_queries (query ∷ queries) = do
    fetch ← get_remote query.1 query.0
    fetches ← get_queries queries
    some (fetch ∷ fetches)

  -- `ReadTensors` behind the search for the shards.
  unfoldable pub read_tensors : ℕ → List Piece → Option (List Fetch)
  read_tensors total_size pieces = do queries ← lay_out total_size 0 pieces; get_queries queries
