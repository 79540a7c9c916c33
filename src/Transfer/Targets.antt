-- ===== src/Transfer/Targets.antt =====
-- The loop of `GetCompactTensorInfos` over the published tensors, one entry at a time.
use asystem_astate.Base.{◌≡◌, refl, none, some, List, ◌∷◌}
use asystem_astate.Shard.Types.{ShardedKey}
use asystem_astate.Transfer.Compact.{
  find_entry, TensorShardMap, NodeMap, TransferTensorMeta, Published, add_shards, collect_targets,
}

module _ {A : Type 0} where
  module _ (atensors : TensorShardMap A) where
    pub skipped :
        (entry : ShardedKey × List (Published A)) (entries : TransferTensorMeta A)
        (node_map : NodeMap A)
        → find_entry entry.0 atensors ≡ none
        → collect_targets atensors (entry ∷ entries) node_map
          ≡ collect_targets atensors entries node_map
    unfolding collect_targets
    skipped entry entries node_map e = rw (collect_targets, e) refl

    pub collected :
        (entry : ShardedKey × List (Published A)) (entries : TransferTensorMeta A)
        (node_map : NodeMap A) (a : A)
        → find_entry entry.0 atensors ≡ some a
        → collect_targets atensors (entry ∷ entries) node_map ≡ (
          entry ∷ (collect_targets atensors entries (add_shards entry.0 entry.1 node_map)).0,
          (collect_targets atensors entries (add_shards entry.0 entry.1 node_map)).1,
        )
    unfolding collect_targets
    collected entry entries node_map a e = rw (collect_targets, e) refl
