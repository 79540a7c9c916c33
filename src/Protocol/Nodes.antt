-- ===== src/Protocol/Nodes.antt =====
-- `NodeInfo`, and the messages on weights. A port is the bit pattern of an `int`.
use asystem_astate.Base.{
  ℕ, ◌^◌, Bool, ◌||◌, ltb, leb, ◌==◌, if◌then◌else◌, Option, none, some, ◌>>=◌, [], ◌∷◌,
}
use Prim.Native.String.{String}
use asystem_astate.Protocol.Json.{
  Json, int_value, string_value, object_value, check_required_field, check_field_type,
}

pub record NodeInfo : Type 0 where
  pub hostname_or_ip : String
  pub rdma_port : ℕ
  pub ctrl_flow_port : ℕ

pub record WeightReadyMessage : Type 0 where
  pub seq_id : ℕ
  pub node_info : NodeInfo

pub record WeightConsumedMessage : Type 0 where
  pub seq_id : ℕ
  pub node_info : NodeInfo

-- `port <= 0 || port > 65535`, as a signed number
unfoldable pub port_is_invalid : ℕ → Bool
port_is_invalid port = port == 0 || leb (2 ^ 31) port || ltb 65535 port

unfoldable pub check_port : ℕ → Option {0} Unit
check_port port = if port_is_invalid port then none else some tt

module _ (json : Json) where
  open json use {Value, object, member, of_string, of_int, of_int64, as_string, as_int, as_int64}

  unfoldable pub node_to_json : NodeInfo → Value
  node_to_json info = object (
      ("hostname_or_ip", of_string info.hostname_or_ip)
      ∷ ("rdma_port", of_int info.rdma_port)
      ∷ ("ctrl_flow_port", of_int info.ctrl_flow_port)
      ∷ [])

  unfoldable pub node_from_json : Value → Option NodeInfo
  node_from_json root = do
    has_host ← check_required_field json root "hostname_or_ip"
    has_rdma ← check_required_field json root "rdma_port"
    has_ctrl ← check_required_field json root "ctrl_flow_port"
    host_type ← check_field_type json root "hostname_or_ip" string_value
    rdma_type ← check_field_type json root "rdma_port" int_value
    ctrl_type ← check_field_type json root "ctrl_flow_port" int_value
    host ← member root "hostname_or_ip"
    hostname ← as_string host
    rdma ← member root "rdma_port"
    rdma_port ← as_int rdma
    ctrl ← member root "ctrl_flow_port"
    ctrl_flow_port ← as_int ctrl
    rdma_checked ← check_port rdma_port
    ctrl_checked ← check_port ctrl_flow_port
    some (record {
      hostname_or_ip = hostname;
      rdma_port = rdma_port;
      ctrl_flow_port = ctrl_flow_port;
    })

  unfoldable pub weight_ready_to_json : WeightReadyMessage → Value
  weight_ready_to_json msg =
      object (("seq_id", of_int64 msg.seq_id) ∷ ("node_info", node_to_json msg.node_info) ∷ [])

  unfoldable pub weight_ready_from_json : Value → Option WeightReadyMessage
  weight_ready_from_json root = do
    has_seq ← check_required_field json root "seq_id"
    has_node ← check_required_field json root "node_info"
    seq_type ← check_field_type json root "seq_id" int_value
    node_type ← check_field_type json root "node_info" object_value
    seq ← member root "seq_id"
    seq_id ← as_int64 seq
    node ← member root "node_info"
    info ← node_from_json node
    some (record { seq_id = seq_id; node_info = info })

  unfoldable pub weight_consumed_to_json : WeightConsumedMessage → Value
  weight_consumed_to_json msg =
      object (("seq_id", of_int64 msg.seq_id) ∷ ("node_info", node_to_json msg.node_info) ∷ [])

  unfoldable pub weight_consumed_from_json : Value → Option WeightConsumedMessage
  weight_consumed_from_json root = do
    has_seq ← check_required_field json root "seq_id"
    has_node ← check_required_field json root "node_info"
    seq_type ← check_field_type json root "seq_id" int_value
    node_type ← check_field_type json root "node_info" object_value
    seq ← member root "seq_id"
    seq_id ← as_int64 seq
    node ← member root "node_info"
    info ← node_from_json node
    some (record { seq_id = seq_id; node_info = info })
