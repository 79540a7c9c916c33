-- ===== src/Transfer/Compact.antt =====
-- `GetCompactTensorInfos` and `CompactTensorInfos`: the tensors that lie in one memory of a sender, to
-- be read at once. Maps are lists in the order of their iteration, or functions where they are only
-- searched; `none` of a function is a missing key, and of a call an exception.
use Prim.Native.String.{String}
use asystem_astate.Base.{ℕ, ◌==◌, if◌then◌else◌, Option, none, some, ◌>>=◌, List, [], ◌∷◌, length}
use asystem_astate.Shard.Types.{ShardedKey}
use asystem_astate.Protocol.Keys.{same_key}
use asystem_astate.Protocol.Nodes.{NodeInfo}
use asystem_astate.Transfer.Hosts.{same_node}

module _ {A : Type 0} where
  -- `find`, `emplace`, which keeps an entry that is there, and `erase` of a map by sharded keys.
  unfoldable pub find_entry : ShardedKey → List (ShardedKey × A) → Option A
  find_entry key [] = none
  find_entry key (entry ∷ entries) =
      if same_key entry.0 key then some entry.1 else find_entry key entries

  unfoldable pub emplace_key : ShardedKey → A → List (ShardedKey × A) → List (ShardedKey × A)
  emplace_key key a entries = elim (find_entry key entries) [
    | some b ↦ entries
    | none ↦ (key, a) ∷ entries
  ]

  unfoldable pub erase_key : ShardedKey → List (ShardedKey × A) → List (ShardedKey × A)
  erase_key key [] = []
  erase_key key (entry ∷ entries) =
      let rest = erase_key key entries in if same_key entry.0 key then rest else entry ∷ rest

  -- `back`, undefined for an empty vector.
  unfoldable pub back : List A → Option A
  back [] = none
  back (x ∷ xs) = elim (back xs) [ none ↦ some x | some y ↦ some y ]

-- Of `TensorRDMAInfo` and `CompactTensorInfo`, for tensors of the type `A`.
pub record Published (A : Type 0) : Type 0 where
  pub addr : ℕ
  pub size : ℕ
  pub rkey : String
  pub node_info : NodeInfo
  pub atensor : A

pub record CompactTensorInfo (A : Type 0) : Type 0 where
  pub addr : ℕ
  pub size : ℕ
  pub rkey : String
  pub node_info : NodeInfo
  pub atensors : List (ShardedKey × A)

abbrev pub TensorShardMap : Type 0 → Type 0
TensorShardMap A = List (ShardedKey × A)

abbrev pub AddrMap : Type 0 → Type 0
AddrMap A = ℕ → Option (TensorShardMap A)

abbrev pub NodeMap : Type 0 → Type 0
NodeMap A = NodeInfo → Option (AddrMap A)

abbrev pub TransferTensorMeta : Type 0 → Type 0
TransferTensorMeta A = List (ShardedKey × List (Published A))

unfoldable pub or_no_shards : {A : Type 0} → Option (TensorShardMap A) → TensorShardMap A
or_no_shards none = []
or_no_shards (some shards) = shards

unfoldable pub or_no_addr : {A : Type 0} → Option (AddrMap A) → AddrMap A
or_no_addr none addr = none
or_no_addr (some addrs) addr = addrs addr

-- What `node_map` holds of the key for a published tensor.
unfoldable pub add_shard : {A : Type 0} → ShardedKey → Published A → NodeMap A → NodeMap A
add_shard key info node_map node =
    if same_node info.node_info node
    then some (λ addr.
      let old = or_no_addr (node_map info.node_info) addr in
      if info.addr == addr then some (emplace_key key info.atensor (or_no_shards old)) else old)
    else node_map node

unfoldable pub add_shards : {A : Type 0} → ShardedKey → List (Published A) → NodeMap A → NodeMap A
add_shards key [] node_map = node_map
add_shards key (info ∷ infos) node_map = add_shards key infos (add_shard key info node_map)

-- The loop over the published tensors, which keeps the wanted ones: `target_transfer_meta` and
-- `node_map`.
unfoldable pub collect_targets :
    {A : Type 0}
    → TensorShardMap A
    → TransferTensorMeta A
    → NodeMap A
    → TransferTensorMeta A × NodeMap A
collect_targets atensors [] node_map = ([], node_map)
collect_targets atensors (entry ∷ entries) node_map = elim (find_entry entry.0 atensors) [
  | none ↦ collect_targets atensors entries node_map
  | some a ↦
      let r = collect_targets atensors entries (add_shards entry.0 entry.1 node_map) in
      (entry ∷ r.0, r.1)
]

-- The loop over the shards of one memory: what is left of `target_transfer_meta`, and `atensors`.
unfoldable pub take_shards :
    {A : Type 0}
    → TensorShardMap A
    → TransferTensorMeta A
    → TensorShardMap A
    → TransferTensorMeta A × TensorShardMap A
take_shards [] target atensors = (target, atensors)
take_shards (shard ∷ shards) target atensors = elim (find_entry shard.0 target) [
  | none ↦ take_shards shards target atensors
  | some infos ↦
      take_shards shards (erase_key shard.0 target) (emplace_key shard.0 shard.1 atensors)
]

-- `CompactTensorInfos`
unfoldable pub compact_tensor_infos :
    {A : Type 0}
    → NodeMap A
    → TensorShardMap A
    → TransferTensorMeta A
    → Option (List (CompactTensorInfo A))
compact_tensor_infos node_map [] target = some []
compact_tensor_infos node_map (entry ∷ entries) target = elim (find_entry entry.0 target) [
  | none ↦ compact_tensor_infos node_map entries target
  | some infos ↦ do
    info ← back infos
    addrs ← node_map info.node_info
    shards ← addrs info.addr
    found ← find_entry entry.0 shards
    let r = take_shards shards target (entry ∷ []) in
        do
          rest ← compact_tensor_infos node_map entries r.0
          some (
              record {
                addr = info.addr;
                size = info.size;
                rkey = info.rkey;
                node_info = info.node_info;
                atensors = r.1;
              }
              ∷ rest)
]

-- `GetCompactTensorInfos` behind the wait, where the sequence id has published tensors.
unfoldable pub get_compact_tensor_infos :
    {A : Type 0} → TransferTensorMeta A → TensorShardMap A → Option (List (CompactTensorInfo A))
get_compact_tensor_infos published atensors =
    let r = collect_targets atensors published (λ node. none) in
    if length r.0 == length atensors then compact_tensor_infos r.1 atensors r.0 else none
