-- ===== src/Transfer/Collected.antt =====
-- `GetCompactTensorInfos`: the map of nodes holds what has been published for the wanted tensors.
use asystem_astate.Base.{
  ℕ, ◌==◌, eq→==, ==→eq, ◌≡◌, refl, sym, ap, ◌∙◌, subst, false, Bool-cases, if◌then◌else◌, inl, inr,
  Option, some,
}
use asystem_astate.Shard.Types.{ShardedKey}
use asystem_astate.Protocol.Nodes.{NodeInfo}
use asystem_astate.Transfer.Hosts.{same_node, same_node_refl, same_node-eq}
use asystem_astate.Transfer.Compact.{
  emplace_key, TensorShardMap, AddrMap, NodeMap, Published, or_no_shards, or_no_addr, add_shard,
}
use asystem_astate.Transfer.Groups.{Has, find_emplaced, find_after_emplace}
use asystem_astate.Transfer.Located.{Located}

module _ {A : Type 0} where
  -- The addresses of the node in the map that `add_shard` makes.
  unfoldable pub added : ShardedKey → Published A → NodeMap A → AddrMap A
  added key info node_map addr =
      let old = or_no_addr (node_map info.node_info) addr in
      if info.addr == addr then some (emplace_key key info.atensor (or_no_shards old)) else old

  pub add_shard-added :
      (key : ShardedKey) (info : Published A) (node_map : NodeMap A)
      → add_shard key info node_map info.node_info ≡ some (added key info node_map)
  unfolding add_shard added
  add_shard-added key info node_map = rw (add_shard, same_node_refl info.node_info) refl

  pub add_shard-other :
      (key : ShardedKey) (info : Published A) (node_map : NodeMap A) (node : NodeInfo)
      → same_node info.node_info node ≡ false
      → add_shard key info node_map node ≡ node_map node
  unfolding add_shard
  add_shard-other key info node_map node e = rw (add_shard, e) refl

  pub added_here :
      (key : ShardedKey) (info : Published A) (node_map : NodeMap A)
      → added key info node_map info.addr
        ≡ some (
            emplace_key key info.atensor
              (or_no_shards (or_no_addr (node_map info.node_info) info.addr)))
  unfolding added
  added_here key info node_map = rw (eq→== info.addr info.addr refl) refl

  pub added_there :
      (key : ShardedKey) (info : Published A) (node_map : NodeMap A) (addr : ℕ)
      → (info.addr == addr) ≡ false
      → added key info node_map addr ≡ or_no_addr (node_map info.node_info) addr
  unfolding added
  added_there key info node_map addr e = rw e refl

  -- The published tensor is in the map.
  pub add_shard-Located :
      (key : ShardedKey) (info : Published A) (node_map : NodeMap A)
      → Located (add_shard key info node_map) key info.addr info.node_info
  add_shard-Located key info node_map = (
    added key info node_map,
    add_shard-added key info node_map,
    emplace_key key info.atensor (or_no_shards (or_no_addr (node_map info.node_info) info.addr)),
    added_here key info node_map,
    find_emplaced key info.atensor (or_no_shards (or_no_addr (node_map info.node_info) info.addr)),
  )

  old_shards :
      (node_map : NodeMap A) (node : NodeInfo) (addr : ℕ) (addrs : AddrMap A)
      (shards : TensorShardMap A)
      → node_map node ≡ some addrs
      → addrs addr ≡ some shards
      → or_no_addr (node_map node) addr ≡ some shards
  unfolding or_no_addr
  old_shards node_map node addr addrs shards n a = rw (or_no_addr, n) a

  or_no_shards-some :
      (o : Option (TensorShardMap A)) (shards : TensorShardMap A)
      → o ≡ some shards
      → or_no_shards o ≡ shards
  unfolding or_no_shards
  or_no_shards-some o shards e = rw e refl

  -- What is in the map stays there.
  pub add_shard-keeps :
      (key other : ShardedKey) (info : Published A) (node_map : NodeMap A) (addr : ℕ)
      (node : NodeInfo)
      → Located node_map key addr node
      → Located (add_shard other info node_map) key addr node
  add_shard-keeps key other info node_map addr node (addrs, n, shards, a, has) =
      elim (Bool-cases (same_node info.node_info node)) [
        | inr s ↦ (addrs, add_shard-other other info node_map node s ∙ n, shards, a, has)
        | inl s ↦
            let here = same_node-eq info.node_info node s in
            let old =
              old_shards node_map info.node_info addr addrs shards (ap node_map here ∙ n) a in
            let at_node =
              ap (add_shard other info node_map) (sym here) ∙ add_shard-added other info node_map in
            elim (Bool-cases (info.addr == addr)) [
              | inr d ↦ (
                added other info node_map,
                at_node,
                shards,
                added_there other info node_map addr d ∙ old,
                has,
              )
              | inl d ↦
                  let there = ==→eq info.addr addr d in
                  (
                    added other info node_map,
                    at_node,
                    emplace_key other info.atensor
                        (or_no_shards (or_no_addr (node_map info.node_info) info.addr)),
                    ap (added other info node_map) (sym there) ∙ added_here other info node_map,
                    find_after_emplace key other info.atensor
                        (or_no_shards (or_no_addr (node_map info.node_info) info.addr))
                        (subst (Has key)
                          (sym (
                            or_no_shards-some _ shards
                              (ap (or_no_addr (node_map info.node_info)) there ∙ old)))
                          has),
                  )
            ]
      ]
