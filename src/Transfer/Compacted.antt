-- ===== src/Transfer/Compacted.antt =====
-- `GetCompactTensorInfos`: the loop over the published tensors, and the reads that it leads to.
use asystem_astate.Base.{
  ℕ, suc, ◌==◌, ==→eq, ==→ne, ◌≢◌, ◌⊎◌, Any-imp, ◌≡◌, refl, sym, ap, ◌∙◌, subst, Bool-cases,
  Option-cases, if◌then◌else◌, inl, inr, none, some, some-injective, List, [], ◌∷◌, length, All,
  Any, arith,
}
use asystem_astate.Shard.Types.{ShardedKey}
use asystem_astate.Protocol.Keys.{same_key}
use asystem_astate.Protocol.Nodes.{NodeInfo}
use asystem_astate.Protocol.Roundtrip.Keys.{same_key-eq}
use asystem_astate.Transfer.Compact.{
  find_entry, back, TensorShardMap, NodeMap, TransferTensorMeta, Published, CompactTensorInfo,
  add_shard, add_shards, collect_targets, compact_tensor_infos, get_compact_tensor_infos,
}
use asystem_astate.Transfer.Groups.{Has, absent}
use asystem_astate.Transfer.Located.{Located, Covers, compact-Gathers}
use asystem_astate.Transfer.Targets.{skipped, collected}
use asystem_astate.Transfer.Origins.{IsPublished, Located-IsPublished}
use asystem_astate.Transfer.Collected.{add_shard-Located, add_shard-keeps}

module _ {A : Type 0} where
  add_shards-keeps :
      (key other : ShardedKey) (infos : List (Published A)) (node_map : NodeMap A) (addr : ℕ)
      (node : NodeInfo)
      → Located node_map key addr node
      → Located (add_shards other infos node_map) key addr node
  unfolding add_shards
  add_shards-keeps key other [] node_map addr node h = h
  add_shards-keeps key other (info ∷ infos) node_map addr node h =
      add_shards-keeps key other infos (add_shard other info node_map) addr node
        (add_shard-keeps key other info node_map addr node h)

  add_shards-Located :
      (key : ShardedKey) (infos : List (Published A)) (node_map : NodeMap A) (info : Published A)
      → back infos ≡ some info
      → Located (add_shards key infos node_map) key info.addr info.node_info
  unfolding add_shards back
  add_shards-Located key [] node_map info e = absurd (ground (arith, e))
  add_shards-Located key (x ∷ infos) node_map info e = elim (Option-cases (back infos)) [
    | inl n ↦
        subst
          (λ (y : Published A).
            Located (add_shards key infos (add_shard key x node_map)) key y.addr y.node_info)
          (some-injective _ _ (rw (n, back) at e))
          (add_shards-keeps key key infos (add_shard key x node_map) x.addr x.node_info
            (add_shard-Located key x node_map))
    | inr (y, f) ↦
        add_shards-Located key infos (add_shard key x node_map) info (f ∙ rw (f, back) at e)
  ]

  module _ (atensors : TensorShardMap A) where
    collect_targets-keeps :
        (key : ShardedKey) (entries : TransferTensorMeta A) (node_map : NodeMap A) (addr : ℕ)
        (node : NodeInfo)
        → Located node_map key addr node
        → Located (collect_targets atensors entries node_map).1 key addr node
    unfolding collect_targets
    collect_targets-keeps key [] node_map addr node h = h
    collect_targets-keeps key (entry ∷ entries) node_map addr node h =
        elim (Option-cases (find_entry entry.0 atensors)) [
          | inl n ↦
              subst (λ (r : TransferTensorMeta A × NodeMap A). Located r.1 key addr node)
                (sym (skipped atensors entry entries node_map n))
                (collect_targets-keeps key entries node_map addr node h)
          | inr (a, e) ↦
              subst (λ (r : TransferTensorMeta A × NodeMap A). Located r.1 key addr node)
                (sym (collected atensors entry entries node_map a e))
                (collect_targets-keeps key entries (add_shards entry.0 entry.1 node_map) addr node
                  (add_shards-keeps key entry.0 entry.1 node_map addr node h))
        ]

    -- What is known of the result of the loop.
    abbrev CoversAll : TransferTensorMeta A → TransferTensorMeta A × NodeMap A → Type 0
    CoversAll entries r =
        Covers r.1 r.0 × ((key : ShardedKey) → Has key atensors → Has key entries → Has key r.0)

    collect_targets-CoversAll :
        (entries : TransferTensorMeta A) (node_map : NodeMap A)
        → All
            (λ (entry : ShardedKey × List (Published A)).
              (info : Published A) × (back entry.1 ≡ some info))
            entries
        → CoversAll entries (collect_targets atensors entries node_map)
    unfolding collect_targets find_entry
    collect_targets-CoversAll [] node_map h =
        (λ key infos e. absurd (ground (arith, e)), λ key f t. t)
    collect_targets-CoversAll (entry ∷ entries) node_map ((info, b), h) =
        elim (Option-cases (find_entry entry.0 atensors)) [
          | inl n ↦
              let r = collect_targets-CoversAll entries node_map h in
              subst (CoversAll (entry ∷ entries)) (sym (skipped atensors entry entries node_map n))
                (
                  r.0,
                  λ key f t. elim (Bool-cases (same_key entry.0 key)) [
                    | inl s ↦
                        absent (find_entry key atensors) f.0
                          (subst (λ k. find_entry k atensors ≡ none) (same_key-eq entry.0 key s) n)
                          f.1
                    | inr s ↦ r.1 key f (
                      t.0,
                      sym (ap (λ b. if b then some entry.1 else find_entry key entries) s) ∙ t.1,
                    )
                  ],
                )
          | inr (a, e) ↦
              let next = add_shards entry.0 entry.1 node_map in
              let r = collect_targets-CoversAll entries next h in
              subst (CoversAll (entry ∷ entries))
                (sym (collected atensors entry entries node_map a e))
                (
                  λ key infos f. elim (Bool-cases (same_key entry.0 key)) [
                    | inl s ↦
                        let same = some-injective _ _ (
                          sym (
                            ap
                              (λ b.
                                if b
                                then some entry.1
                                else find_entry key (collect_targets atensors entries next).0)
                              s)
                          ∙ f) in
                        (
                          info,
                          ap back (sym same) ∙ b,
                          collect_targets-keeps key entries next info.addr info.node_info (
                              subst (λ k. Located next k info.addr info.node_info)
                                (same_key-eq entry.0 key s)
                                (add_shards-Located entry.0 entry.1 node_map info b)),
                        )
                    | inr s ↦ r.0 key infos (
                        sym (
                          ap
                            (λ b.
                              if b
                              then some entry.1
                              else find_entry key (collect_targets atensors entries next).0)
                            s)
                        ∙ f)
                  ],
                  λ key f t. elim (Bool-cases (same_key entry.0 key)) [
                    | inl s ↦ (
                      entry.1,
                      ap
                          (λ b.
                            if b
                            then some entry.1
                            else find_entry key (collect_targets atensors entries next).0)
                          s,
                    )
                    | inr s ↦
                        let w = r.1 key f (
                          t.0,
                          sym (ap (λ b. if b then some entry.1 else find_entry key entries) s)
                              ∙ t.1,
                        ) in
                        (
                          w.0,
                          ap
                                (λ b.
                                  if b
                                  then some entry.1
                                  else find_entry key (collect_targets atensors entries next).0)
                                s
                              ∙ w.1,
                        )
                  ],
                )
        ]

  -- The number of published keys that are asked for.
  abbrev pub count_asked : TensorShardMap A → TransferTensorMeta A → ℕ
  count_asked atensors [] = 0
  count_asked atensors (entry ∷ entries) = elim (find_entry entry.0 atensors) [
    | none ↦ count_asked atensors entries
    | some a ↦ suc (count_asked atensors entries)
  ]

  length-collect_targets :
      (atensors : TensorShardMap A) (entries : TransferTensorMeta A) (node_map : NodeMap A)
      → length (collect_targets atensors entries node_map).0 ≡ count_asked atensors entries
  unfolding collect_targets
  length-collect_targets atensors [] node_map = refl
  length-collect_targets atensors (entry ∷ entries) node_map =
      elim (Option-cases (find_entry entry.0 atensors)) [
        | inl n ↦
            ap (λ r. length r.0) (skipped atensors entry entries node_map n)
            ∙ rw (count_asked, n) (length-collect_targets atensors entries node_map)
        | inr (a, e) ↦
            ap (λ r. length r.0) (collected atensors entry entries node_map a e)
            ∙ rw (count_asked, e)
                (ap suc
                  (length-collect_targets atensors entries (add_shards entry.0 entry.1 node_map)))
      ]

  call :
      (published : TransferTensorMeta A) (atensors : TensorShardMap A)
      → get_compact_tensor_infos published atensors ≡ (
          if count_asked atensors published == length atensors
          then compact_tensor_infos
              (collect_targets atensors published (λ node. none)).1
              atensors
              (collect_targets atensors published (λ node. none)).0
          else none)
  unfolding get_compact_tensor_infos
  call published atensors =
      ap
        (λ n.
          if n == length atensors
          then compact_tensor_infos (collect_targets atensors published (λ node. none)).1 atensors
              (collect_targets atensors published (λ node. none)).0
          else none)
        (length-collect_targets atensors published (λ node. none))

  -- The read gets the key, from a memory for which it has been published.
  abbrev pub Groups : TransferTensorMeta A → ShardedKey → CompactTensorInfo A → Type 0
  Groups published key c = IsPublished published key c.addr c.node_info × Has key c.atensors

  -- Take published keys that each have a tensor. If the number of published keys that are asked for
  -- is the number of keys asked for, the call returns reads, and each key that is asked for and
  -- published is in one of them, whose address and node are those of a tensor that was published
  -- under this key. If the numbers differ, the call fails.
  pub get_compact_tensor_infos-Groups :
      (published : TransferTensorMeta A) (atensors : TensorShardMap A)
      → All
          (λ (entry : ShardedKey × List (Published A)).
            (info : Published A) × (back entry.1 ≡ some info))
          published
      → ((count_asked atensors published ≡ length atensors)
          × (cs : List (CompactTensorInfo A)) × (get_compact_tensor_infos published atensors
              ≡ some cs)
          × ((key : ShardedKey)
              → Has key atensors
              → Has key published
              → Any (Groups published key) cs))
        ⊎ ((count_asked atensors published ≢ length atensors)
            × (get_compact_tensor_infos published atensors ≡ none))
  get_compact_tensor_infos-Groups published atensors h =
      let covers = collect_targets-CoversAll atensors published (λ node. none) h in
      let (cs, f, gathers) =
        compact-Gathers (collect_targets atensors published (λ node. none)).1 atensors
          (collect_targets atensors published (λ node. none)).0 covers.0 in
      elim (Bool-cases (count_asked atensors published == length atensors)) [
        | inl e ↦ inl (
          ==→eq (count_asked atensors published) (length atensors) e,
          cs,
          call published atensors ∙ rw e f,
          λ key a p.
              Any-imp
                (λ c g. (Located-IsPublished atensors published key c.addr c.node_info g.0, g.1)) cs
                (gathers key a (covers.1 key a p)),
        )
        | inr n ↦ inr (
          ==→ne (count_asked atensors published) (length atensors) n,
          call published atensors ∙ rw n refl,
        )
      ]
