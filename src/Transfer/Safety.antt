-- ===== src/Transfer/Safety.antt =====
-- What a reader can rely on while it reads.
use asystem_astate.Base.{ℕ, ◌≡◌, Bool, false, none, some, List, []}
use asystem_astate.Shard.Types.{ShardedKey}
use asystem_astate.Protocol.Publish.{TensorMemoryInfo}
use asystem_astate.Protocol.Json.{Json}
use asystem_astate.Protocol.Nodes.{NodeInfo}
use asystem_astate.Transfer.Service.{Service, init_seq_id}
use asystem_astate.Transfer.Rounds.{
  Writer, WriterPhase, writing, announcing, waiting, getting, System,
}

-- A service after `Start`, with its name and its peers.
abbrev pub started : Bool → Bool → NodeInfo → List NodeInfo → Service
started prefetch has_table self peers = record {
  local_node_info = self;
  peer_hosts = peers;
  is_read = false;
  is_write = false;
  current_seq_id = init_seq_id;
  last_completed_seq_id = init_seq_id;
  is_publish_meta = false;
  ready_nodes = [];
  consumed_nodes = [];
  enable_local_cache_prefetch = prefetch;
  has_table = has_table;
}

abbrev pub start : Bool → Bool → List NodeInfo → List NodeInfo → System
start prefetch has_table writers readers = record {
  writer = λ w. record {
    service = started prefetch has_table w readers;
    phase = writing;
    round = 0;
    put = none;
  };
  reader =
      λ r. record { service = started prefetch has_table r writers; phase = getting; round = 0 };
}

-- The writer is in `Complete`.
abbrev pub IsCompleting : WriterPhase → Type 0
IsCompleting writing = ⊥
IsCompleting (announcing rest) = Unit {0}
IsCompleting waiting = Unit {0}

-- A `MultiPut` of the writer's round has returned true, under the sequence id of the round, and the
-- writer is in `Complete`, where it does not put others.
abbrev pub HasPut : (ℕ → ℕ) → Writer → Type 0
HasPut seq_of x =
    IsCompleting x.phase
    × (atensors : List (ShardedKey × TensorMemoryInfo)) × (x.put ≡ some (seq_of x.round, atensors))
