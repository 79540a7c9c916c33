-- ===== src/Table/Search.antt =====
-- `GetTensorShards`: which tensors are read.
use text.Mathlib.Text.{◌==◌ as same_text}
use Prim.Native.String.{String}
use asystem_astate.Base.{
  ℕ, ◌≡◌, refl, inl, inr, Bool, true, ◌&&◌, ◌==◌, Bool-cases, if◌then◌else◌, Option, none, some, [],
  ◌∷◌,
}
use asystem_astate.Shard.Types.{ShardedKey}
use asystem_astate.Table.Torch.{Torch, returns, raises}
use asystem_astate.Table.Memory.{TensorDict, TableData, find_seq, collect, get_tensor_shards}

module _ (torch : Torch) where
  -- The tensors of the sequence number.
  abbrev pub stored : TableData torch → ℕ → TensorDict torch
  stored table seq = elim (find_seq seq table) [ none ↦ [] | some dict ↦ dict ]

  abbrev pub all_typed : ℕ → TensorDict torch → Bool
  all_typed dtype [] = true
  all_typed dtype (e ∷ dict) = (torch.scalar_type e.1 == dtype) && all_typed dtype dict

  abbrev pub named : String → TensorDict torch → TensorDict torch
  named key [] = []
  named key (e ∷ dict) = if same_text e.0.key key then e ∷ named key dict else named key dict

  collect-named :
      (key : String) (dtype : ℕ) (dict : TensorDict torch)
      → collect torch key dtype dict
        ≡ (if all_typed dtype dict then returns (named key dict) else raises)
  unfolding collect
  collect-named key dtype [] = refl
  collect-named key dtype (e ∷ dict) = elim (Bool-cases (torch.scalar_type e.1 == dtype)) [
    | inl t ↦
        rw (t, collect-named key dtype dict)
          (elim (Bool-cases (all_typed dtype dict)) [ inl u ↦ rw u refl | inr u ↦ rw u refl ])
    | inr f ↦ rw f refl
  ]

  -- The search for shards throws exactly if some tensor of the sequence number, under whatever name,
  -- has another data type than the target. Otherwise it returns the tensors of the name.
  pub get_tensor_shards-eq :
      (table : TableData torch) (key : ShardedKey) (seq : ℕ) (target : torch.Tensor)
      → get_tensor_shards torch table key seq target ≡ (
          if all_typed (torch.scalar_type target) (stored table seq)
          then returns (named key.key (stored table seq))
          else raises)
  unfolding get_tensor_shards
  get_tensor_shards-eq table key seq target = go (find_seq seq table)
    where
      go :
          (o : Option (TensorDict torch))
          → elim o [
            | none ↦ returns []
            | some dict ↦ collect torch key.key (torch.scalar_type target) dict
          ]
            ≡ (if all_typed (torch.scalar_type target) (elim o [ none ↦ [] | some dict ↦ dict ])
                then returns (named key.key (elim o [ none ↦ [] | some dict ↦ dict ]))
                else raises)
      go none = refl
      go (some dict) = collect-named key.key (torch.scalar_type target) dict
