-- ===== src/Transfer/Service.antt =====
-- The state of `TensorTransferPull` that its operations and message handlers share. Sequence ids are
-- the bit patterns of `int64_t`.
use Prim.Native.String.{String}
use asystem_astate.Base.{
  ℕ, ◌+◌, ◌%◌, ◌^◌, ◌-◌, Bool, true, false, not, ◌==◌, ◌&&◌, ltb, if◌then◌else◌, Option, none, some,
  ◌>>=◌, List, [], ◌∷◌, length,
}
use asystem_astate.Shard.Types.{ShardedKey}
use asystem_astate.Protocol.Json.{Json}
use asystem_astate.Protocol.Nodes.{
  NodeInfo, WeightReadyMessage, WeightConsumedMessage, weight_ready_to_json, weight_ready_from_json,
  weight_consumed_to_json, weight_consumed_from_json,
}
use asystem_astate.Protocol.Publish.{TensorMemoryInfo, PublishMessage}
use asystem_astate.Transfer.Hosts.{insert_node}

-- The flags `is_read` and `is_write` are the two bits of `current_data_operation_`.
pub record Service : Type 0 where
  pub local_node_info : NodeInfo
  pub peer_hosts : List NodeInfo
  pub is_read : Bool
  pub is_write : Bool
  pub current_seq_id : ℕ
  pub last_completed_seq_id : ℕ
  pub is_publish_meta : Bool
  pub ready_nodes : List NodeInfo
  pub consumed_nodes : List NodeInfo
  pub enable_local_cache_prefetch : Bool
  -- `ctx_` and its table are not null.
  pub has_table : Bool

-- -1
abbrev pub init_seq_id : ℕ
init_seq_id = 2 ^ 64 - 1

-- Order of the signed numbers.
unfoldable pub signed_lt : ℕ → ℕ → Bool
signed_lt a b = ltb ((a + 2 ^ 63) % 2 ^ 64) ((b + 2 ^ 63) % 2 ^ 64)

-- `SetRead`
unfoldable pub set_read : Service → Service
set_read s = record s { is_read = true }

-- `SetWrite`
unfoldable pub set_write : Service → Service
set_write s = record s { is_write = true }

-- `CheckAndUpdateCurrentSeqId`
unfoldable pub check_and_update_current_seq_id : ℕ → Service → Service × Bool
check_and_update_current_seq_id seq_id s =
    if s.current_seq_id == init_seq_id
    then (record s { current_seq_id = seq_id }, true)
    else (s, seq_id == s.current_seq_id)

-- How `MultiPut` ends before it sends: it returns `false`, it throws, it has a message to publish,
-- whose delivery it returns, or it returns `true`.
pub data Put : Type 0 where
  refused : Put
  unregistered : Put
  publishes : PublishMessage → Put
  already_published : Put

abbrev pub register_all : (TensorMemoryInfo → Bool) → List (ShardedKey × TensorMemoryInfo) → Bool
register_all registers [] = true
register_all registers (entry ∷ rest) =
    if registers entry.1 then register_all registers rest else false

abbrev pub is_empty_list : List (ShardedKey × TensorMemoryInfo) → Bool
is_empty_list [] = true
is_empty_list (entry ∷ rest) = false

-- `MultiPut`, with the answers of `IsRunning` and of the registration of each storage.
unfoldable pub multi_put :
    Bool
    → (TensorMemoryInfo → Bool)
    → ℕ
    → List (ShardedKey × TensorMemoryInfo)
    → Service
    → Service × Put
multi_put running registers seq_id atensors s =
    if not running
    then (s, refused)
    else if is_empty_list atensors
    then (s, refused)
    else let r = check_and_update_current_seq_id seq_id (set_write s) in
      if not r.1
      then (r.0, refused)
      else if r.0.is_publish_meta
      then (r.0, already_published)
      else if not (register_all registers atensors)
      then (r.0, unregistered)
      else (
        r.0,
        publishes (record {
          seq_id = seq_id;
          node_info = s.local_node_info;
          tensor_rdma_metas = atensors;
        }),
      )

-- The part of `RawGet` before it waits: `false` if it returns `false` there.
unfoldable pub begin_read : Bool → ℕ → Service → Service × Bool
begin_read running seq_id s =
    if not running then (s, false) else check_and_update_current_seq_id seq_id (set_read s)

-- The condition of `WaitForAllTensorReady`.
unfoldable pub all_ready : Service → Bool
all_ready s = length s.ready_nodes == length s.peer_hosts

-- The condition that `Complete` waits for after writing.
unfoldable pub all_consumed : Service → Bool
all_consumed s = length s.consumed_nodes == length s.peer_hosts

-- The end of `Complete`.
unfoldable pub reset : Service → Service
reset s = record s {
  is_read = false;
  is_write = false;
  last_completed_seq_id = s.current_seq_id;
  current_seq_id = init_seq_id;
  ready_nodes = [];
  consumed_nodes = [];
  is_publish_meta = true;
}

-- `HandleWeightReady` after it has read the message, or failed to: the state, whether it answers with
-- success, and the sequence id for which it starts to prefetch.
unfoldable pub weights_are_ready : Option WeightReadyMessage → Service → Service × Bool × Option ℕ
weights_are_ready none s = (s, false, none)
weights_are_ready (some msg) s =
    let nodes = insert_node msg.node_info s.ready_nodes in
    (
      record s { ready_nodes = nodes },
      true,
      if (length nodes == length s.peer_hosts) && s.enable_local_cache_prefetch && s.has_table
          then some msg.seq_id
          else none,
    )

-- `HandleWeightConsumed` after it has read the message, or failed to.
unfoldable pub weights_are_consumed : Option WeightConsumedMessage → Service → Service × Bool
weights_are_consumed none s = (s, false)
weights_are_consumed (some msg) s =
    if signed_lt msg.seq_id s.current_seq_id
    then (s, false)
    else (record s { consumed_nodes = insert_node msg.node_info s.consumed_nodes }, true)

module _ (json : Json) where
  open json use {write, parse}

  -- The messages that `Complete` sends.
  unfoldable pub ready_text : Service → String
  ready_text s = write (
      weight_ready_to_json json
        (record { seq_id = s.current_seq_id; node_info = s.local_node_info }))

  unfoldable pub consumed_text : Service → String
  consumed_text s = write (
      weight_consumed_to_json json
        (record { seq_id = s.current_seq_id; node_info = s.local_node_info }))

  -- `HandleWeightReady`
  unfoldable pub handle_weight_ready : String → Service → Service × Bool × Option ℕ
  handle_weight_ready text s = weights_are_ready (parse text >>= weight_ready_from_json json) s

  -- `HandleWeightConsumed`
  unfoldable pub handle_weight_consumed : String → Service → Service × Bool
  handle_weight_consumed text s =
      weights_are_consumed (parse text >>= weight_consumed_from_json json) s
