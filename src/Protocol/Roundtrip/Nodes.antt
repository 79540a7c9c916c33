-- ===== src/Protocol/Roundtrip/Nodes.antt =====
-- The messages about nodes and weights.
use asystem_astate.Base.{
  ℕ, ◌^◌, ◌<◌, ◌≡◌, Bool, ◌&&◌, leb, if◌then◌else◌, Option, none, some, ◌>>=◌, arith,
}
use asystem_astate.Protocol.Json.{
  Json, IsJson, object_value, check_required_field, check_field_type,
}
use asystem_astate.Protocol.Nodes.{
  NodeInfo, port_is_invalid, check_port, node_to_json, node_from_json, weight_ready_from_json,
  weight_ready_to_json, weight_consumed_from_json, weight_consumed_to_json,
}

-- An `int` and an `int64_t` of the messages.
pub record IsNode (info : NodeInfo) : Type 0 where
  pub rdma_word : info.rdma_port < 2 ^ 32
  pub ctrl_word : info.ctrl_flow_port < 2 ^ 32

-- Ports that `fromJson` accepts.
abbrev pub accepts : NodeInfo → Bool
accepts info =
    leb 1 info.rdma_port
    && leb info.rdma_port 65535
    && leb 1 info.ctrl_flow_port
    && leb info.ctrl_flow_port 65535

check-ports {ℓ} :
    {A : Type ℓ} (info : NodeInfo) (o : Option A)
    → (do
      rdma_checked ← check_port info.rdma_port
      ctrl_checked ← check_port info.ctrl_flow_port
      o)
      ≡ (if accepts info then o else none)
unfolding check_port port_is_invalid
check-ports info o = ground arith

module _ (json : Json) (laws : IsJson json) where
  -- A node that is written as JSON is read back, if both of its ports are between 1 and 65535, and
  -- otherwise reading it throws an exception.
  pub node-read :
      (info : NodeInfo)
      → IsNode info
      → node_from_json json (node_to_json json info) ≡ (if accepts info then some info else none)
  unfolding node_from_json node_to_json check_required_field check_field_type
  node-read info h =
      simp
        (
          laws.is_member_object,
          laws.member_object,
          laws.type_string,
          laws.type_int,
          laws.as_string_string,
          laws.as_int_int info.rdma_port h.rdma_word,
          laws.as_int_int info.ctrl_flow_port h.ctrl_word,
        )
        (check-ports info (some info))

  pub node-type : (info : NodeInfo) → json.type_of (node_to_json json info) ≡ object_value
  unfolding node_to_json
  node-type info = laws.type_object _

  -- A message that weights are ready, or that they are consumed, is read back as it was written if
  -- both ports of its node are between 1 and 65535, and otherwise reading it throws an exception.
  pub weights-read :
      (seq_id : ℕ) (info : NodeInfo)
      → seq_id < 2 ^ 64
      → IsNode info
      → (weight_ready_from_json json
            (weight_ready_to_json json (record { seq_id = seq_id; node_info = info }))
          ≡ (if accepts info then some (record { seq_id = seq_id; node_info = info }) else none))
        × (weight_consumed_from_json json
              (weight_consumed_to_json json (record { seq_id = seq_id; node_info = info }))
            ≡ (if accepts info then some (record { seq_id = seq_id; node_info = info }) else none))
  unfolding weight_ready_from_json weight_ready_to_json weight_consumed_from_json
      weight_consumed_to_json check_required_field check_field_type
  weights-read seq_id info s h = (
    simp
        (
          laws.is_member_object,
          laws.member_object,
          laws.type_int64,
          node-type,
          laws.as_int64_int64 seq_id s,
          node-read info h,
        )
        (ground arith),
    simp
        (
          laws.is_member_object,
          laws.member_object,
          laws.type_int64,
          node-type,
          laws.as_int64_int64 seq_id s,
          node-read info h,
        )
        (ground arith),
  )
