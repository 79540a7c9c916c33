-- ===== src/Table/Memory.antt =====
-- `InMemoryTensorTable`. The unordered maps are lists in the order of their iteration, which is any.
-- An argument `none` is an object that is no tensor, for which `PyObjectToTensor` throws.
use mathlib.Core.Option as Options
use text.Mathlib.Text.{◌==◌ as same_text}
use Prim.Native.String.{String}
use asystem_astate.Base.{
  ℕ, Bool, true, false, ◌==◌, if◌then◌else◌, Option, none, some, List, [], ◌∷◌, length,
}
use asystem_astate.Shard.Types.{ShardedKey, Outcome, ok, throws, fault}
use asystem_astate.Shard.Copy.{copy_region}
use asystem_astate.Protocol.Keys.{same_key}
use asystem_astate.Table.Torch.{Torch, Result, returns, raises, faults, ◌>>=◌}

module _ {ℓ} {V : Type ℓ} where
  -- `dict[key] = value`
  unfoldable pub assign : ShardedKey → V → List (ShardedKey × V) → List (ShardedKey × V)
  assign key value [] = (key, value) ∷ []
  assign key value (e ∷ dict) =
      let rest = assign key value dict in if same_key e.0 key then (e.0, value) ∷ dict else e ∷ rest

  unfoldable pub find_seq : ℕ → List (ℕ × List V) → Option (List V)
  find_seq seq [] = none
  find_seq seq (e ∷ table) = let rest = find_seq seq table in if e.0 == seq then some e.1 else rest

  -- `table_data_[seq_id]`, changed by a function.
  unfoldable pub change_seq : ℕ → (List V → List V) → List (ℕ × List V) → List (ℕ × List V)
  change_seq seq f [] = (seq, f []) ∷ []
  change_seq seq f (e ∷ table) =
      let rest = change_seq seq f table in if e.0 == seq then (seq, f e.1) ∷ table else e ∷ rest

-- The first access out of range of the loop over the dimensions: of a vector of offsets, which is
-- undefined, or of the sizes of a tensor, which throws.
unfoldable pub out_of_range :
    List ℕ → List ℕ → List ℕ → List ℕ → Result (Option (List ℕ × List ℕ × List ℕ))
out_of_range [] ns ps ms = faults
out_of_range (o ∷ os) [] ps ms = raises
out_of_range (o ∷ os) (n ∷ ns) [] ms = faults
out_of_range (o ∷ os) (n ∷ ns) (p ∷ ps) [] = raises
out_of_range (o ∷ os) (n ∷ ns) (p ∷ ps) (m ∷ ms) = out_of_range os ns ps ms

abbrev pub of_region :
    List ℕ
    → List ℕ
    → List ℕ
    → List ℕ
    → Outcome (Option (List ℕ × List ℕ × List ℕ))
    → Result (Option (List ℕ × List ℕ × List ℕ))
of_region os ns ps ms (ok r) = returns r
of_region os ns ps ms (throws e) = raises
of_region os ns ps ms fault = out_of_range os ns ps ms

pub record TensorMetaOf : Type 0 where
  pub dtype : ℕ
  pub size : List ℕ

module _ (torch : Torch) where
  open torch use {Tensor, scalar_type, sizes, clone, zeros, copy_block}

  abbrev pub TensorDict : Type 0
  TensorDict = List (ShardedKey × Tensor)

  abbrev pub TableData : Type 0
  TableData = List (ℕ × TensorDict)

  unfoldable pub put : TableData → ℕ → ShardedKey → Option Tensor → TableData × Bool
  put table seq key none = (table, false)
  put table seq key (some t) = (change_seq seq (assign key (clone t)) table, true)

  -- The loop of `MultiPut`: the tensors before one that throws are kept.
  unfoldable pub put_all : List (ShardedKey × Option Tensor) → TensorDict → TensorDict × Bool
  put_all [] dict = (dict, true)
  put_all ((key, none) ∷ list) dict = (dict, false)
  put_all ((key, some t) ∷ list) dict = put_all list (assign key (clone t) dict)

  abbrev or_empty : Option TensorDict → TensorDict
  or_empty none = []
  or_empty (some dict) = dict

  unfoldable pub multi_put : TableData → ℕ → List (ShardedKey × Option Tensor) → TableData × Bool
  multi_put table seq list = (
    change_seq seq (λ dict. (put_all list dict).0) table,
    (put_all list (or_empty (find_seq seq table))).1,
  )

  -- The loop of `GetTensorShards`: the data type is checked before the key.
  unfoldable pub collect : String → ℕ → TensorDict → Result TensorDict
  collect key dtype [] = returns []
  collect key dtype (e ∷ dict) = do
    rest ← if scalar_type e.1 == dtype then collect key dtype dict else raises
    returns (if same_text e.0.key key then e ∷ rest else rest)

  unfoldable pub get_tensor_shards : TableData → ShardedKey → ℕ → Tensor → Result TensorDict
  get_tensor_shards table key seq target = elim (find_seq seq table) [
    | none ↦ returns []
    | some dict ↦ collect key.key (scalar_type target) dict
  ]

  -- The target after the copy of a region, if there is one.
  abbrev pub copied : Tensor → Tensor → Option (List ℕ × List ℕ × List ℕ) → Tensor × Bool
  copied source target none = (target, false)
  copied source target (some (src_offset, target_offset, shape)) =
      (copy_block source target src_offset target_offset shape, true)

  -- `CopyTensorWithShardedKeysUnsafe`
  unfoldable pub copy_sharded : ShardedKey → Tensor → ShardedKey → Tensor → Result (Tensor × Bool)
  copy_sharded src_key source target_key target = do
    region ←
        of_region src_key.global_offset (sizes source) target_key.global_offset (sizes target) (
          copy_region (length src_key.global_shape) src_key.global_offset (sizes source)
            target_key.global_offset (sizes target))
    returns (copied source target region)

  -- The loop over the shards of `Get` and `GetTensor`.
  unfoldable pub copy_shards : TensorDict → ShardedKey → Tensor → Result Tensor
  copy_shards [] key target = returns target
  copy_shards (e ∷ shards) key target = do
    r ← copy_sharded e.0 e.1 key target
    copy_shards shards key r.0

  -- The shards into a target; `none` where there is none.
  unfoldable pub fill : TensorDict → ShardedKey → Tensor → Result (Option Tensor)
  fill [] key target = returns none
  fill (e ∷ shards) key target = do
    filled ← copy_shards (e ∷ shards) key target
    returns (some filled)

  -- The target after the call (`none`: it is not changed), if the call returns true.
  unfoldable pub get : TableData → ℕ → ShardedKey → Option Tensor → Result (Option Tensor)
  get table seq key none = raises
  get table seq key (some target) = do
    shards ← get_tensor_shards table key seq target
    fill shards key target

  unfoldable pub get_tensor : TableData → ℕ → ShardedKey → TensorMetaOf → Result (Option Tensor)
  get_tensor table seq key meta = do
    shards ← get_tensor_shards table key seq (zeros meta.size meta.dtype)
    fill shards key (zeros meta.size meta.dtype)

  unfoldable pub multi_get_tensor :
      TableData → ℕ → List (ShardedKey × TensorMetaOf) → Result TensorDict
  multi_get_tensor table seq [] = returns []
  multi_get_tensor table seq (m ∷ metas) = do
    tensor ← get_tensor table seq m.0 m.1
    rest ← multi_get_tensor table seq metas
    returns (elim tensor [ none ↦ rest | some t ↦ (m.0, t) ∷ rest ])

  unfoldable pub scan_dict : TensorDict → List (String × TensorMetaOf)
  scan_dict [] = []
  scan_dict (e ∷ dict) =
      (e.0.key, record { dtype = scalar_type e.1; size = sizes e.1 }) ∷ scan_dict dict

  unfoldable pub scan_tensor_meta : TableData → ℕ → List (String × TensorMetaOf)
  scan_tensor_meta table seq = elim (find_seq seq table) [ none ↦ [] | some dict ↦ scan_dict dict ]

  -- The tensors that a list of arguments stands for.
  abbrev targets : List (ShardedKey × Option Tensor) → List (Option Tensor)
  targets [] = []
  targets (e ∷ list) = e.1 ∷ targets list

  -- After a call of `Get`: an exception is caught, and without a shard the loop ends. `none` are
  -- targets of which an exception has left open what they hold: `Get` may have copied some shards.
  unfoldable pub after_get :
      List (Option Tensor)
      → Result (Option Tensor)
      → (Tensor → Result (Bool × Option (List (Option Tensor))))
      → Result (Bool × Option (List (Option Tensor)))
  after_get unchanged raises next = returns (false, none)
  after_get unchanged faults next = faults
  after_get unchanged (returns none) next = returns (false, some unchanged)
  after_get unchanged (returns (some t)) next = next t

  -- The loop of `MultiGet`, with `found_any`: the result, and the targets after the call.
  unfoldable pub get_all :
      Bool
      → TableData
      → ℕ
      → List (ShardedKey × Option Tensor)
      → Result (Bool × Option (List (Option Tensor)))
  get_all found_any table seq [] = returns (found_any, some [])
  get_all found_any table seq (e ∷ list) =
      after_get (e.1 ∷ targets list) (get table seq e.0 e.1) (λ t. do
        rest ← get_all true table seq list
        returns (rest.0, Options.map (λ ts. some t ∷ ts) rest.1))

  unfoldable pub multi_get :
      TableData
      → ℕ
      → List (ShardedKey × Option Tensor)
      → Result (Bool × Option (List (Option Tensor)))
  multi_get table seq list = get_all false table seq list
