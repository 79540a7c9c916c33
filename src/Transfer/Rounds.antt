-- ===== src/Transfer/Rounds.antt =====
-- Senders that write and receivers that read the weights of one sequence id after the other. A step
-- is what a node does between two waits, or the delivery or loss of a message. The nodes of
-- `peer_hosts` are different, each node either writes or reads, a reader completes after it has read,
-- and one that waits in vain does nothing more.
use asystem_astate.Base.{
  ℕ, ◌+◌, ◌≡◌, Bool, true, false, if◌then◌else◌, Option, none, some, List, [], ◌∷◌,
}
use asystem_astate.Shard.Types.{ShardedKey}
use asystem_astate.Protocol.Json.{Json}
use asystem_astate.Protocol.Nodes.{NodeInfo}
use asystem_astate.Protocol.Publish.{TensorMemoryInfo}
use asystem_astate.Transfer.Hosts.{same_node, mem_node}
use asystem_astate.Transfer.Service.{
  Service, Put, refused, unregistered, publishes, already_published, multi_put, begin_read,
  all_ready, all_consumed, reset, ready_text, consumed_text, handle_weight_ready,
  handle_weight_consumed,
}

-- Where a writer is: it puts tensors, or is in `Complete`, where it has the nodes of a list still to
-- tell that the weights are ready, or waits.
pub data WriterPhase : Type 0 where
  writing : WriterPhase
  announcing : List NodeInfo → WriterPhase
  waiting : WriterPhase

-- Where a reader is: it asks for tensors and waits, it reads, or it is in `Complete` and has the nodes
-- of a list still to tell that it is done.
pub data ReaderPhase : Type 0 where
  getting : ReaderPhase
  reading : ReaderPhase
  notifying : List NodeInfo → ReaderPhase

-- With the sequence id and the tensors of the last `MultiPut` of the round that has returned true.
pub record Writer : Type 0 where
  pub service : Service
  pub phase : WriterPhase
  pub round : ℕ
  pub put : Option (ℕ × List (ShardedKey × TensorMemoryInfo))

-- What `MultiPut` returns; `sent` says whether its message, if there is one, is sent to all peers. In
-- `unregistered` it throws.
unfoldable pub returns_true : Bool → Put → Bool
returns_true sent refused = false
returns_true sent unregistered = false
returns_true sent (publishes message) = sent
returns_true sent already_published = true

pub record Reader : Type 0 where
  pub service : Service
  pub phase : ReaderPhase
  pub round : ℕ

pub record System : Type 0 where
  pub writer : NodeInfo → Writer
  pub reader : NodeInfo → Reader

-- The list without a node.
abbrev pub drop_node : NodeInfo → List NodeInfo → List NodeInfo
drop_node a [] = []
drop_node a (x ∷ xs) = let rest = drop_node a xs in if same_node a x then rest else x ∷ rest

abbrev pub at {ℓ} : {A : Type ℓ} → NodeInfo → A → (NodeInfo → A) → NodeInfo → A
at a x f b = if same_node b a then x else f b

module _ (json : Json) (seq_of : ℕ → ℕ) where
  -- What a writer does by itself. In its n-th round it puts under the n-th sequence id, and it
  -- completes after a `MultiPut` of the round has returned true.
  pub data Writes (x : Writer) : Writer → Type 0 where
    puts :
        (running sent : Bool) (registers : TensorMemoryInfo → Bool)
        (atensors : List (ShardedKey × TensorMemoryInfo)) (s : Service) (p : Put)
        → x.phase ≡ writing
        → multi_put running registers (seq_of x.round) atensors x.service ≡ (s, p)
        → Writes x (record x {
          service = s;
          put = if returns_true sent p then some (seq_of x.round, atensors) else x.put;
        })
    completes :
        (q : ℕ × List (ShardedKey × TensorMemoryInfo))
        → x.phase ≡ writing
        → x.service.is_write ≡ true
        → x.put ≡ some q
        → Writes x (record x { phase = announcing x.service.peer_hosts })
    waits : x.phase ≡ announcing [] → Writes x (record x { phase = waiting })
    ends :
        x.phase ≡ waiting
        → all_consumed x.service ≡ true
        → Writes x
            (record { service = reset x.service; phase = writing; round = x.round + 1; put = none })

  pub data Reads (y : Reader) : Reader → Type 0 where
    asks :
        (running ok : Bool) (s : Service)
        → y.phase ≡ getting
        → begin_read running (seq_of y.round) y.service ≡ (s, ok)
        → Reads y (record y { service = s })
    starts :
        y.phase ≡ getting
        → y.service.is_read ≡ true
        → all_ready y.service ≡ true
        → Reads y (record y { phase = reading })
    completes : y.phase ≡ reading → Reads y (record y { phase = notifying y.service.peer_hosts })
    ends :
        y.phase ≡ notifying []
        → Reads y (record { service = reset y.service; phase = getting; round = y.round + 1 })

  module _ (writers readers : List NodeInfo) where
    pub data Step (s : System) : System → Type 0 where
      writes :
          (w : NodeInfo) (x : Writer)
          → mem_node w writers ≡ true
          → Writes (s.writer w) x
          → Step s (record s { writer = at w x s.writer })
      reads :
          (r : NodeInfo) (y : Reader)
          → mem_node r readers ≡ true
          → Reads (s.reader r) y
          → Step s (record s { reader = at r y s.reader })
      announces :
          (w r : NodeInfo) (rest : List NodeInfo) (delivered : Bool)
          → mem_node w writers ≡ true
          → (s.writer w).phase ≡ announcing rest
          → mem_node r rest ≡ true
          → mem_node r readers ≡ true
          → Step s (record {
            writer = at w (record (s.writer w) { phase = announcing (drop_node r rest) }) s.writer;
            reader =
                if delivered
                then at r
                    (record (s.reader r) {
                      service =
                          (handle_weight_ready json
                            (ready_text json (s.writer w).service)
                            (s.reader r).service).0;
                    })
                    s.reader
                else s.reader;
          })
      notifies :
          (w r : NodeInfo) (rest : List NodeInfo) (delivered : Bool)
          → mem_node r readers ≡ true
          → (s.reader r).phase ≡ notifying rest
          → mem_node w rest ≡ true
          → mem_node w writers ≡ true
          → Step s (record {
            writer =
                if delivered
                then at w
                    (record (s.writer w) {
                      service =
                          (handle_weight_consumed json
                            (consumed_text json (s.reader r).service)
                            (s.writer w).service).0;
                    })
                    s.writer
                else s.writer;
            reader = at r (record (s.reader r) { phase = notifying (drop_node w rest) }) s.reader;
          })

    pub data Reach (s : System) : System → Type 0 where
      here : Reach s s
      next : {t u : System} → Reach s t → Step t u → Reach s u
