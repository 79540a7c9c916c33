-- ===== src/Transfer/Tests.antt =====
-- One writer and one reader.
use asystem_astate.Base.{ℕ, ◌+◌, ◌%◌, ◌^◌, true, false, some, List, [], ◌∷◌}
use asystem_astate.Shard.Types.{ShardedKey}
use asystem_astate.Protocol.Nodes.{NodeInfo}
use asystem_astate.Protocol.Publish.{TensorMemoryInfo}
use asystem_astate.Protocol.Documents.{documents}
use asystem_astate.Transfer.Service.{multi_put, begin_read, handle_weight_ready, ready_text}
use asystem_astate.Transfer.Rounds.{
  writing, announcing, getting, reading, Writer, Reader, System, at, drop_node,
}
use asystem_astate.Transfer.Rounds
use asystem_astate.Transfer.Safety.{start}

abbrev sender : NodeInfo
sender = record { hostname_or_ip = "a"; rdma_port = 1; ctrl_flow_port = 2 }

abbrev receiver : NodeInfo
receiver = record { hostname_or_ip = "b"; rdma_port = 3; ctrl_flow_port = 4 }

abbrev weights : List (ShardedKey × TensorMemoryInfo)
weights =
    (
      record { key = "bias"; global_shape = 4 ∷ []; global_offset = 0 ∷ [] },
      record {
        addr = 4096;
        size = 16;
        rkey = "";
        atensor_meta = record {
          size = 4 ∷ [];
          stride = 1 ∷ [];
          storage_offset = 0;
          dim_num = 1;
          dtype = 6;
          conj = false;
          neg = false;
          requires_grad = false;
          storage = record {
            storage_size = 16;
            device = record { device_type = 0; device_index = 0 };
          };
        };
      },
    )
    ∷ []

abbrev seq_of : ℕ → ℕ
seq_of n = (n + 7) % 2 ^ 64

abbrev started_system : System
started_system = start false true (sender ∷ []) (receiver ∷ [])

abbrev has_put : System
has_put = record started_system {
  writer =
      at sender
        (record (started_system.writer sender) {
          service =
              (multi_put true (λ m. true) (seq_of 0) weights
                (started_system.writer sender).service).0;
          put = some (seq_of 0, weights);
        })
        started_system.writer;
}

abbrev is_announcing : System
is_announcing = record has_put {
  writer =
      at sender (record (has_put.writer sender) { phase = announcing (receiver ∷ []) })
        has_put.writer;
}

abbrev has_asked : System
has_asked = record is_announcing {
  reader =
      at receiver
        (record (is_announcing.reader receiver) {
          service = (begin_read true (seq_of 0) (is_announcing.reader receiver).service).0;
        })
        is_announcing.reader;
}

abbrev has_announced : System
has_announced = record {
  writer =
      at sender
        (record (has_asked.writer sender) {
          phase = announcing (drop_node receiver (receiver ∷ []));
        })
        has_asked.writer;
  reader =
      at receiver
        (record (has_asked.reader receiver) {
          service =
              (handle_weight_ready documents
                (ready_text documents (has_asked.writer sender).service)
                (has_asked.reader receiver).service).0;
        })
        has_asked.reader;
}

abbrev is_reading : System
is_reading = record has_announced {
  reader =
      at receiver (record (has_announced.reader receiver) { phase = reading }) has_announced.reader;
}
