-- ===== src/Protocol/Tests.antt =====
-- Messages of one node that publishes two tensors, with a small JSON library.
use asystem_astate.Base.{ℕ, ◌^◌, ◌<◌, ◌≡◌, refl, true, false, none, some, [], ◌∷◌, ◌-◌, arith}
use asystem_astate.Shard.Types.{ShardedKey}
use asystem_astate.Wire.Meta.{TensorMeta}
use asystem_astate.Protocol.Nodes.{NodeInfo, node_to_json, node_from_json}
use asystem_astate.Protocol.Publish.{
  TensorMemoryInfo, PublishMessage, lookup, publish_to_json, publish_from_json,
}
use asystem_astate.Protocol.Roundtrip.Nodes.{IsNode, node-read}
use asystem_astate.Protocol.Roundtrip.Tensors.{IsTensor}
use asystem_astate.Protocol.Roundtrip.Keys.{IsKey}
use asystem_astate.Protocol.Roundtrip.Entries.{IsInfo, AreInfos}
use asystem_astate.Protocol.Roundtrip.Publish.{publish-read}
use asystem_astate.Protocol.Documents.{documents, documents-IsJson}

abbrev trainer : NodeInfo
trainer = record { hostname_or_ip = "10.0.0.7"; rdma_port = 18515; ctrl_flow_port = 65535 }

-- `new int` port of -1
abbrev unbound : NodeInfo
unbound = record { hostname_or_ip = "10.0.0.8"; rdma_port = 2 ^ 32 - 1; ctrl_flow_port = 80 }

trainer-IsNode : IsNode trainer
trainer-IsNode = record { rdma_word = omega arith; ctrl_word = omega arith }

unbound-IsNode : IsNode unbound
unbound-IsNode = record { rdma_word = omega arith; ctrl_word = omega arith }

node-read_example : node_from_json documents (node_to_json documents unbound) ≡ none
node-read_example = node-read documents documents-IsJson unbound unbound-IsNode

-- On the CPU (device 0), with device index -1, 8 GiB of storage and an offset.
abbrev bias : TensorMeta
bias = record {
  size = 4 ∷ [];
  stride = 1 ∷ [];
  storage_offset = 9;
  dim_num = 1;
  dtype = 6;
  conj = false;
  neg = true;
  requires_grad = false;
  storage = record {
    storage_size = 2 ^ 33;
    device = record { device_type = 0; device_index = 255 };
  };
}

bias-IsTensor : IsTensor bias
bias-IsTensor = record {
  dims = omega arith;
  sizes = refl;
  strides = refl;
  size_words = (omega arith, tt);
  stride_words = (omega arith, tt);
  offset_word = omega arith;
  dtype_byte = omega arith;
  storage_word = omega arith;
  device = record { type_byte = omega arith; index_byte = omega arith };
}

abbrev left_half : ShardedKey
left_half = record { key = "bias"; global_shape = 8 ∷ []; global_offset = 0 ∷ [] }

abbrev right_half : ShardedKey
right_half = record { key = "bias"; global_shape = 8 ∷ []; global_offset = 4 ∷ [] }

left_half-IsKey : IsKey left_half
left_half-IsKey = record {
  shape_words = (omega arith, tt);
  offset_words = (omega arith, tt);
  dims = refl;
}

right_half-IsKey : IsKey right_half
right_half-IsKey = record {
  shape_words = (omega arith, tt);
  offset_words = (omega arith, tt);
  dims = refl;
}

abbrev memory : ℕ → TensorMemoryInfo
memory addr = record { addr = addr; size = 16; rkey = "k"; atensor_meta = bias }

memory-IsInfo : (addr : ℕ) → addr < 2 ^ 64 → IsInfo (memory addr)
memory-IsInfo addr h = record {
  addr_word = h;
  size_word = omega arith;
  not_empty = omega arith;
  tensor = bias-IsTensor;
}

abbrev published : PublishMessage
published = record {
  seq_id = 12;
  node_info = trainer;
  tensor_rdma_metas = (left_half, memory 4096) ∷ (right_half, memory 8192) ∷ [];
}

published-AreInfos : AreInfos published.tensor_rdma_metas
published-AreInfos = (
  (left_half-IsKey, memory-IsInfo 4096 (omega arith)),
  ((right_half-IsKey, memory-IsInfo 8192 (omega arith)), tt),
)

publish-read_example :
    (v : documents.Value) × (msg : PublishMessage) × (publish_to_json documents published ≡ some v)
    × (publish_from_json documents v ≡ some msg)
    × (msg.seq_id ≡ 12)
    × (msg.node_info ≡ trainer)
    × (lookup right_half msg.tensor_rdma_metas none
        ≡ lookup right_half published.tensor_rdma_metas none)
publish-read_example =
    publish-read documents documents-IsJson published right_half (omega arith) trainer-IsNode refl
      published-AreInfos right_half-IsKey

right_half_held : lookup right_half published.tensor_rdma_metas none ≡ some (memory 8192)
unfolding lookup asystem_astate.Protocol.Keys.same_key asystem_astate.Protocol.Keys.same_numbers
right_half_held = refl
