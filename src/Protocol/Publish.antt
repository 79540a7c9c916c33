-- ===== src/Protocol/Publish.antt =====
-- `TensorMemoryRDMAInfo`, and the message that publishes the memory of tensors. The map from keys is
-- the list of its assignments, of which the last one for a key counts.
use Prim.Native.String.{String}
use asystem_astate.Base.{ℕ, ◌==◌, if◌then◌else◌, Option, none, some, ◌>>=◌, List, [], ◌∷◌, ◌++◌}
use asystem_astate.Wire.Meta.{TensorMeta}
use asystem_astate.Shard.Types.{ShardedKey}
use asystem_astate.Protocol.Json.{
  Json, int_value, string_value, object_value, check_required_field, check_field_type,
}
use asystem_astate.Protocol.Nodes.{NodeInfo, node_to_json, node_from_json}
use asystem_astate.Protocol.Tensors.{tensor_to_json, tensor_from_json}
use asystem_astate.Protocol.Decimal.{to_string, stoull}
use asystem_astate.Protocol.Keys.{same_key, key_to_json, key_from_json}

pub record TensorMemoryInfo : Type 0 where
  pub addr : ℕ
  pub size : ℕ
  pub rkey : String
  pub atensor_meta : TensorMeta

abbrev pub InfoMap : Type 0
InfoMap = List (ShardedKey × TensorMemoryInfo)

-- What the map holds for a key after the assignments of a list.
unfoldable pub lookup : ShardedKey → InfoMap → Option TensorMemoryInfo → Option TensorMemoryInfo
lookup key [] last = last
lookup key (entry ∷ infos) last =
    lookup key infos (if same_key entry.0 key then some entry.1 else last)

pub record PublishMessage : Type 0 where
  pub seq_id : ℕ
  pub node_info : NodeInfo
  pub tensor_rdma_metas : InfoMap

module _ (json : Json) where
  open json use {
    Value, object, member, member_names, of_string, of_int64, of_uint64, as_string, as_int64,
    as_uint64, write, parse,
  }

  unfoldable pub info_to_json : TensorMemoryInfo → Option Value
  info_to_json info = do
    tmeta ← tensor_to_json json info.atensor_meta
    some (
        object (
          ("addr", of_string (to_string info.addr))
          ∷ ("size", of_uint64 info.size)
          ∷ ("rkey", of_string info.rkey)
          ∷ ("tmeta", tmeta)
          ∷ []))

  unfoldable pub check_size : ℕ → Option {0} Unit
  check_size size = if size == 0 then none else some tt

  unfoldable pub info_from_json : Value → Option TensorMemoryInfo
  info_from_json root = do
    has_addr ← check_required_field json root "addr"
    has_size ← check_required_field json root "size"
    has_rkey ← check_required_field json root "rkey"
    has_tmeta ← check_required_field json root "tmeta"
    addr_type ← check_field_type json root "addr" string_value
    rkey_type ← check_field_type json root "rkey" string_value
    tmeta_type ← check_field_type json root "tmeta" object_value
    addr_value ← member root "addr"
    addr_text ← as_string addr_value
    addr ← stoull addr_text
    size_value ← member root "size"
    size ← as_uint64 size_value
    size_checked ← check_size size
    tmeta ← member root "tmeta"
    atensor_meta ← tensor_from_json json tmeta
    rkey_value ← member root "rkey"
    rkey ← as_string rkey_value
    some (record { addr = addr; size = size; rkey = rkey; atensor_meta = atensor_meta })

  -- `Serialize` of a key.
  abbrev pub key_text : ShardedKey → String
  key_text key = write (key_to_json json key)

  -- The members of the object `metas`, in the order of the loop.
  unfoldable pub metas_to_fields : InfoMap → Option (List (String × Value))
  metas_to_fields [] = some []
  metas_to_fields (entry ∷ infos) = do
    value ← info_to_json entry.1
    fields ← metas_to_fields infos
    some ((key_text entry.0, value) ∷ fields)

  unfoldable pub publish_object : PublishMessage → List (String × Value) → Value
  publish_object msg metas = object (
      ("seq_id", of_int64 msg.seq_id)
      ∷ ("node_info", node_to_json json msg.node_info)
      ∷ ("tensor_rdma_metas", object metas)
      ∷ [])

  unfoldable pub publish_to_json : PublishMessage → Option Value
  publish_to_json msg = do
    metas ← metas_to_fields msg.tensor_rdma_metas
    some (publish_object msg metas)

  -- The loop over the names of the members of `metas`.
  unfoldable pub read_metas : Value → List String → InfoMap → Option InfoMap
  read_metas metas [] infos = some infos
  read_metas metas (name ∷ names) infos = do
    key_value ← parse name
    key ← key_from_json json key_value
    value ← member metas name
    info ← info_from_json value
    read_metas metas names (infos ++ (key, info) ∷ [])

  unfoldable pub publish_from_json : Value → Option PublishMessage
  publish_from_json root = do
    has_seq ← check_required_field json root "seq_id"
    has_node ← check_required_field json root "node_info"
    has_metas ← check_required_field json root "tensor_rdma_metas"
    seq_type ← check_field_type json root "seq_id" int_value
    node_type ← check_field_type json root "node_info" object_value
    metas_type ← check_field_type json root "tensor_rdma_metas" object_value
    seq ← member root "seq_id"
    seq_id ← as_int64 seq
    node ← member root "node_info"
    node_info ← node_from_json json node
    metas ← member root "tensor_rdma_metas"
    infos ← read_metas metas (member_names metas) []
    some (record { seq_id = seq_id; node_info = node_info; tensor_rdma_metas = infos })
