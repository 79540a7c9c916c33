-- ===== src/Transfer/Origins.antt =====
-- `GetCompactTensorInfos`: the map of nodes holds only what has been published.
use asystem_astate.Base.{
  ℕ, ◌==◌, ==→eq, ◌≡◌, refl, sym, ap, ◌∙◌, subst, Bool-cases, Option-cases, ◌⊎◌, inl, inr, Option,
  none, some, some-injective, List, [], ◌∷◌, Any, arith,
}
use asystem_astate.Shard.Types.{ShardedKey}
use asystem_astate.Protocol.Keys.{same_key}
use asystem_astate.Protocol.Nodes.{NodeInfo}
use asystem_astate.Protocol.Roundtrip.Keys.{same_key-eq}
use asystem_astate.Transfer.Hosts.{same_node, same_node-eq}
use asystem_astate.Transfer.Compact.{
  find_entry, emplace_key, TensorShardMap, AddrMap, NodeMap, TransferTensorMeta, Published,
  or_no_shards, or_no_addr, add_shard, add_shards, collect_targets,
}
use asystem_astate.Transfer.Groups.{Has, find_entry_cons}
use asystem_astate.Transfer.Located.{Located}
use asystem_astate.Transfer.Collected.{
  added, add_shard-added, add_shard-other, added_here, added_there,
}
use asystem_astate.Transfer.Targets.{skipped, collected}

module _ {A : Type 0} where
  -- One of the tensors is at the address of the node.
  abbrev pub IsAt : ℕ → NodeInfo → List (Published A) → Type 0
  IsAt addr node = Any (λ (info : Published A). (info.addr ≡ addr) × (info.node_info ≡ node))

  -- The key has been published for the address of the node.
  abbrev pub IsPublished : TransferTensorMeta A → ShardedKey → ℕ → NodeInfo → Type 0
  IsPublished published key addr node =
      Any (λ (entry : ShardedKey × List (Published A)). (entry.0 ≡ key) × IsAt addr node entry.1)
        published

  emplaced-Has :
      (key other : ShardedKey) (a : A) (entries : TensorShardMap A)
      → Has key (emplace_key other a entries)
      → (other ≡ key) ⊎ Has key entries
  unfolding emplace_key
  emplaced-Has key other a entries h = elim (Option-cases (find_entry other entries)) [
    | inr (b, e) ↦ inr (rw (emplace_key, e) at h)
    | inl e ↦
        let k : Has key ((other, a) ∷ entries) = rw (emplace_key, e) at h in
        elim (Bool-cases (same_key other key)) [
          | inl s ↦ inl (same_key-eq other key s)
          | inr s ↦ inr (k.0, rw (find_entry_cons, s) at k.1)
        ]
  ]

  -- What is looked up in a map that may be missing.
  from_shards :
      (key : ShardedKey) (addr : ℕ) (o : Option (AddrMap A))
      → Has key (or_no_shards (or_no_addr o addr))
      → (addrs : AddrMap A) × (o ≡ some addrs)
        × (shards : TensorShardMap A) × (addrs addr ≡ some shards)
        × Has key shards
  unfolding or_no_shards or_no_addr find_entry
  from_shards key addr none h = absurd (ground (arith, h.1))
  from_shards key addr (some addrs) h = go (addrs addr) refl h
    where
      go :
          (q : Option (TensorShardMap A))
          → addrs addr ≡ q
          → Has key (or_no_shards q)
          → (addrs' : AddrMap A) × (some addrs ≡ some addrs')
            × (shards : TensorShardMap A) × (addrs' addr ≡ some shards)
            × Has key shards
      go none e k = absurd (ground (arith, k.1))
      go (some shards) e k = (addrs, refl, shards, e, k)

  from_addr :
      (addr : ℕ) (o : Option (AddrMap A)) (shards : TensorShardMap A)
      → or_no_addr o addr ≡ some shards
      → (addrs : AddrMap A) × (o ≡ some addrs) × (addrs addr ≡ some shards)
  unfolding or_no_addr
  from_addr addr none shards e = absurd (ground (arith, e))
  from_addr addr (some addrs) shards e = (addrs, refl, e)

  abbrev Origin : ShardedKey → Published A → NodeMap A → ShardedKey → ℕ → NodeInfo → Type 0
  Origin other info node_map key addr node =
      ((other ≡ key) × (info.addr ≡ addr) × (info.node_info ≡ node))
      ⊎ Located node_map key addr node

  -- At the node of the published tensor.
  add_shard-Origin_here :
      (other : ShardedKey) (info : Published A) (node_map : NodeMap A) (key : ShardedKey) (addr : ℕ)
      (shards : TensorShardMap A)
      → added other info node_map addr ≡ some shards
      → Has key shards
      → Origin other info node_map key addr info.node_info
  add_shard-Origin_here other info node_map key addr shards a has =
      elim (Bool-cases (info.addr == addr)) [
        | inr d ↦
            let (addrs, n, f) =
              from_addr addr (node_map info.node_info) shards
                (sym (added_there other info node_map addr d) ∙ a) in
            inr (addrs, n, shards, f, has)
        | inl d ↦
            let there : info.addr ≡ addr = ==→eq info.addr addr d in
            let made = some-injective _ _ (
              sym a
              ∙ ap (added other info node_map) (sym there)
              ∙ added_here other info node_map) in
            elim (emplaced-Has key other info.atensor
              (or_no_shards (or_no_addr (node_map info.node_info) info.addr))
              (subst (Has key) made has)) [
                | inl e ↦ inl (e, there, refl)
                | inr h ↦ inr (
                    from_shards key addr (node_map info.node_info) (
                      subst (λ n. Has key (or_no_shards (or_no_addr (node_map info.node_info) n)))
                        there h))
              ]
      ]

  add_shard-Origin :
      (other : ShardedKey) (info : Published A) (node_map : NodeMap A) (key : ShardedKey) (addr : ℕ)
      (node : NodeInfo)
      → Located (add_shard other info node_map) key addr node
      → Origin other info node_map key addr node
  add_shard-Origin other info node_map key addr node (addrs, n, shards, a, has) =
      elim (Bool-cases (same_node info.node_info node)) [
        | inr s ↦ inr (addrs, sym (add_shard-other other info node_map node s) ∙ n, shards, a, has)
        | inl s ↦
            let here = same_node-eq info.node_info node s in
            let made = some-injective _ _ (
              sym (add_shard-added other info node_map)
              ∙ ap (add_shard other info node_map) here
              ∙ n) in
            subst (Origin other info node_map key addr) here (
              add_shard-Origin_here other info node_map key addr shards
                (ap (λ (f : AddrMap A). f addr) made ∙ a) has)
      ]

  add_shards-Origin :
      (other : ShardedKey) (infos : List (Published A)) (node_map : NodeMap A) (key : ShardedKey)
      (addr : ℕ) (node : NodeInfo)
      → Located (add_shards other infos node_map) key addr node
      → ((other ≡ key) × IsAt addr node infos) ⊎ Located node_map key addr node
  unfolding add_shards
  add_shards-Origin other [] node_map key addr node h = inr h
  add_shards-Origin other (info ∷ infos) node_map key addr node h =
      elim (add_shards-Origin other infos (add_shard other info node_map) key addr node h) [
        | inl (e, at) ↦ inl (e, inr at)
        | inr l ↦ elim (add_shard-Origin other info node_map key addr node l) [
          | inl (e, f, g) ↦ inl (e, inl (f, g))
          | inr old ↦ inr old
        ]
      ]

  collect_targets-Origin :
      (atensors : TensorShardMap A) (entries : TransferTensorMeta A) (node_map : NodeMap A)
      (key : ShardedKey) (addr : ℕ) (node : NodeInfo)
      → Located (collect_targets atensors entries node_map).1 key addr node
      → IsPublished entries key addr node ⊎ Located node_map key addr node
  unfolding collect_targets
  collect_targets-Origin atensors [] node_map key addr node h = inr h
  collect_targets-Origin atensors (entry ∷ entries) node_map key addr node h =
      elim (Option-cases (find_entry entry.0 atensors)) [
        | inl n ↦
            elim (collect_targets-Origin atensors entries node_map key addr node (
              subst (λ (r : TransferTensorMeta A × NodeMap A). Located r.1 key addr node)
                (skipped atensors entry entries node_map n) h)) [
                  | inl p ↦ inl (inr p)
                  | inr old ↦ inr old
                ]
        | inr (a, e) ↦
            elim (collect_targets-Origin atensors entries (add_shards entry.0 entry.1 node_map) key
              addr node
              (subst (λ (r : TransferTensorMeta A × NodeMap A). Located r.1 key addr node)
                (collected atensors entry entries node_map a e) h)) [
                  | inl p ↦ inl (inr p)
                  | inr l ↦ elim (add_shards-Origin entry.0 entry.1 node_map key addr node l) [
                    | inl p ↦ inl (inl p)
                    | inr old ↦ inr old
                  ]
                ]
      ]

  -- The map that the loop makes holds a key only where it has been published.
  pub Located-IsPublished :
      (atensors : TensorShardMap A) (published : TransferTensorMeta A) (key : ShardedKey) (addr : ℕ)
      (node : NodeInfo)
      → Located (collect_targets atensors published (λ node'. none)).1 key addr node
      → IsPublished published key addr node
  Located-IsPublished atensors published key addr node h =
      elim (collect_targets-Origin atensors published (λ node'. none) key addr node h) [
        | inl p ↦ p
        | inr (addrs, n, _, _, _) ↦ absurd (ground (arith, n))
      ]
