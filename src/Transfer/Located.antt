-- ===== src/Transfer/Located.antt =====
-- `CompactTensorInfos`: every wanted tensor is in a read of a memory that holds it.
use asystem_astate.Base.{
  ℕ, ◌≡◌, refl, sym, ap, ◌∙◌, subst, false, Bool-cases, Option-cases, if◌then◌else◌, inl, inr, none,
  some, List, [], ◌∷◌, Any, arith,
}
use asystem_astate.Shard.Types.{ShardedKey}
use asystem_astate.Protocol.Keys.{same_key}
use asystem_astate.Protocol.Nodes.{NodeInfo}
use asystem_astate.Protocol.Roundtrip.Keys.{same_key-eq}
use asystem_astate.Transfer.Compact.{
  find_entry, back, TensorShardMap, AddrMap, NodeMap, TransferTensorMeta, Published,
  CompactTensorInfo, take_shards, compact_tensor_infos,
}
use asystem_astate.Transfer.Groups.{Has, Takes, take_shards-Takes, absent, find_entry_cons}

-- The map has the key in the memory of the node at the address.
abbrev pub Located : {A : Type 0} → NodeMap A → ShardedKey → ℕ → NodeInfo → Type 0
Located {A = A} node_map key addr node =
    (addrs : AddrMap A) × (node_map node ≡ some addrs)
    × (shards : TensorShardMap A) × (addrs addr ≡ some shards)
    × Has key shards

-- The key of every wanted tensor is in the memory that was published for it last.
abbrev pub Covers : {A : Type 0} → NodeMap A → TransferTensorMeta A → Type 0
Covers {A = A} node_map target =
    (key : ShardedKey) (infos : List (Published A))
    → find_entry key target ≡ some infos
    → (info : Published A) × (back infos ≡ some info)
      × Located node_map key info.addr info.node_info

-- The read gets the tensor, from a memory that holds it.
abbrev pub Gathers : {A : Type 0} → NodeMap A → ShardedKey → CompactTensorInfo A → Type 0
Gathers node_map key c = Located node_map key c.addr c.node_info × Has key c.atensors

module _ {A : Type 0} (node_map : NodeMap A) where
  -- One read and those of the entries behind it.
  step :
      (entry : ShardedKey × A) (entries : TensorShardMap A) (target : TransferTensorMeta A)
      (infos : List (Published A)) (info : Published A) (addrs : AddrMap A)
      (shards : TensorShardMap A) (found : A) (rest : List (CompactTensorInfo A))
      → find_entry entry.0 target ≡ some infos
      → back infos ≡ some info
      → node_map info.node_info ≡ some addrs
      → addrs info.addr ≡ some shards
      → find_entry entry.0 shards ≡ some found
      → compact_tensor_infos node_map entries (take_shards shards target (entry ∷ [])).0 ≡ some rest
      → compact_tensor_infos node_map (entry ∷ entries) target
        ≡ some (
            record {
              addr = info.addr;
              size = info.size;
              rkey = info.rkey;
              node_info = info.node_info;
              atensors = (take_shards shards target (entry ∷ [])).1;
            }
            ∷ rest)
  unfolding compact_tensor_infos
  step entry entries target infos info addrs shards found rest e b n a f r =
      rw (compact_tensor_infos, e, b, n, a, f, r) refl

  skip :
      (entry : ShardedKey × A) (entries : TensorShardMap A) (target : TransferTensorMeta A)
      → find_entry entry.0 target ≡ none
      → compact_tensor_infos node_map (entry ∷ entries) target
        ≡ compact_tensor_infos node_map entries target
  unfolding compact_tensor_infos
  skip entry entries target e = rw (compact_tensor_infos, e) refl

  none_left : (target : TransferTensorMeta A) → compact_tensor_infos node_map [] target ≡ some []
  unfolding compact_tensor_infos
  none_left target = refl

  not_first :
      (key : ShardedKey) (entry : ShardedKey × A) (entries : TensorShardMap A)
      → Has key (entry ∷ entries)
      → same_key entry.0 key ≡ false
      → Has key entries
  not_first key entry entries h s = (
    h.0,
    sym (ap (λ b. if b then some entry.1 else find_entry key entries) s)
        ∙ sym (find_entry_cons key entry entries)
        ∙ h.1,
  )

  pub compact-Gathers :
      (entries : TensorShardMap A) (target : TransferTensorMeta A)
      → Covers node_map target
      → (cs : List (CompactTensorInfo A)) × (compact_tensor_infos node_map entries target ≡ some cs)
        × ((key : ShardedKey) → Has key entries → Has key target → Any (Gathers node_map key) cs)
  unfolding find_entry
  compact-Gathers [] target h = ([], none_left target, λ key f t. absurd (ground (arith, f.1)))
  compact-Gathers (entry ∷ entries) target h = elim (Option-cases (find_entry entry.0 target)) [
    | inl n ↦
        let (cs, e, groups) = compact-Gathers entries target h in
        (
          cs,
          skip entry entries target n ∙ e,
          λ key f t. elim (Bool-cases (same_key entry.0 key)) [
            | inl s ↦
                absent (find_entry key target) t.0
                  (subst (λ k. find_entry k target ≡ none) (same_key-eq entry.0 key s) n) t.1
            | inr s ↦ groups key (not_first key entry entries f s) t
          ],
        )
    | inr (infos, e) ↦
        let (info, b, (addrs, n, shards, a, own)) = h entry.0 infos e in
        let takes : (key : ShardedKey)
            → Takes key shards target (entry ∷ []) (take_shards shards target (entry ∷ [])) =
          λ key. take_shards-Takes key shards target (entry ∷ []) in
        let (cs, e', groups) =
          compact-Gathers entries (take_shards shards target (entry ∷ [])).0
            (λ key is f. h key is ((takes key).left is f)) in
        (
          record {
            addr = info.addr;
            size = info.size;
            rkey = info.rkey;
            node_info = info.node_info;
            atensors = (take_shards shards target (entry ∷ [])).1;
          }
              ∷ cs,
          step entry entries target infos info addrs shards own.0 cs e b n a own.1 e',
          λ key f t.
              elim (Option-cases (find_entry key (take_shards shards target (entry ∷ [])).0)) [
                | inl gone ↦
                    let taken = (takes key).taken t gone in
                    inl ((addrs, n, shards, a, taken.0), taken.1)
                | inr left ↦ elim (Bool-cases (same_key entry.0 key)) [
                  | inl s ↦
                      absent (find_entry key (take_shards shards target (entry ∷ [])).0) left.0
                        ((takes key).own
                          (subst (λ k. Has k shards) (same_key-eq entry.0 key s) own))
                        left.1
                  | inr s ↦ inr (groups key (not_first key entry entries f s) left)
                ]
              ],
        )
  ]
