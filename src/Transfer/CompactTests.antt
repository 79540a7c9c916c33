-- ===== src/Transfer/CompactTests.antt =====
-- Tensors of one sender, of which two lie in one memory.
use asystem_astate.Base.{ℕ, ◌≡◌, ◌≢◌, ◌⊎◌, refl, none, some, List, [], ◌∷◌, Any}
use asystem_astate.Shard.Types.{ShardedKey}
use asystem_astate.Protocol.Keys.{same_key, same_numbers}
use asystem_astate.Protocol.Nodes.{NodeInfo}
use asystem_astate.Transfer.Hosts.{same_node}
use asystem_astate.Transfer.Compact.{
  find_entry, emplace_key, erase_key, back, TensorShardMap, TransferTensorMeta, Published,
  CompactTensorInfo, or_no_shards, or_no_addr, add_shard, add_shards, collect_targets, take_shards,
  compact_tensor_infos, get_compact_tensor_infos,
}
use asystem_astate.Transfer.Groups.{Has}
use asystem_astate.Transfer.Compacted.{count_asked, Groups, get_compact_tensor_infos-Groups}

abbrev key_of : ℕ → ShardedKey
key_of n = record { key = "w"; global_shape = n ∷ []; global_offset = 0 ∷ [] }

abbrev node : NodeInfo
node = record { hostname_or_ip = "a"; rdma_port = 1; ctrl_flow_port = 2 }

abbrev at_addr : ℕ → ℕ → Published ℕ
at_addr addr tensor = record {
  addr = addr;
  size = 64;
  rkey = "";
  node_info = node;
  atensor = tensor;
}

abbrev published : TransferTensorMeta ℕ
published =
    (key_of 1, at_addr 100 10 ∷ [])
    ∷ (key_of 2, at_addr 200 20 ∷ [])
    ∷ (key_of 3, at_addr 100 30 ∷ [])
    ∷ []

abbrev asked : TensorShardMap ℕ
asked = (key_of 3, 33) ∷ (key_of 2, 22) ∷ (key_of 1, 11) ∷ []

-- The tensor that a read was made for is as the caller gave it, the other one as it was published.
two_reads :
    get_compact_tensor_infos published asked
    ≡ some (
        record {
          addr = 100;
          size = 64;
          rkey = "";
          node_info = node;
          atensors = (key_of 1, 10) ∷ (key_of 3, 33) ∷ [];
        }
        ∷ record {
          addr = 200;
          size = 64;
          rkey = "";
          node_info = node;
          atensors = (key_of 2, 22) ∷ [];
        }
        ∷ [])
unfolding get_compact_tensor_infos collect_targets find_entry emplace_key erase_key back
    or_no_shards or_no_addr add_shard add_shards take_shards compact_tensor_infos same_node same_key
    same_numbers
two_reads = refl

get_compact_tensor_infos-Groups_example :
    ((count_asked asked published ≡ 3)
      × (cs : List (CompactTensorInfo ℕ)) × (get_compact_tensor_infos published asked ≡ some cs)
      × ((key : ShardedKey) → Has key asked → Has key published → Any (Groups published key) cs))
    ⊎ ((count_asked asked published ≢ 3) × (get_compact_tensor_infos published asked ≡ none))
unfolding back
get_compact_tensor_infos-Groups_example =
    get_compact_tensor_infos-Groups published asked
      ((at_addr 100 10, refl), ((at_addr 200 20, refl), ((at_addr 100 30, refl), tt)))
