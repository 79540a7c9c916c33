-- ===== src/Transfer/Parties.antt =====
-- What holds of each writer and of each reader by itself, and what a step of its own keeps.
use asystem_astate.Base.{
  ℕ, ◌≡◌, refl, sym, subst, ◌∙◌, Bool, true, false, not, ◌==◌, ==→eq, if◌then◌else◌, inl, inr, ◌⊎◌,
  Bool-cases, List, [], ◌∷◌, length, arith,
}
use asystem_astate.Shard.Types.{ShardedKey}
use asystem_astate.Protocol.Nodes.{NodeInfo}
use asystem_astate.Protocol.Publish.{TensorMemoryInfo}
use asystem_astate.Transfer.Hosts.{
  mem_node, insert_node, IsDistinct, IsIn, insert-IsDistinct, insert-IsIn, all_are-IsIn,
}
use asystem_astate.Transfer.Messages.{Readied, Consumed}
use asystem_astate.Transfer.Service.{
  Service, init_seq_id, set_write, set_read, check_and_update_current_seq_id, Put, multi_put,
  begin_read, register_all, reset,
}

-- A set of nodes of a list.
pub record IsSetOf (peers nodes : List NodeInfo) : Type 0 where
  pub distinct : IsDistinct nodes
  pub within : IsIn nodes peers

-- A node of a round; `working` is whether it has named the sequence id of the round.
pub record IsParty (seq_id : ℕ) (self : NodeInfo) (peers : List NodeInfo) (working : Bool)
    (s : Service) : Type 0 where
  pub local : s.local_node_info ≡ self
  pub hosts : s.peer_hosts ≡ peers
  pub ready : IsSetOf peers s.ready_nodes
  pub consumed : IsSetOf peers s.consumed_nodes
  pub current : (s.current_seq_id ≡ seq_id) ⊎ (s.current_seq_id ≡ init_seq_id)
  pub named : working ≡ true → s.current_seq_id ≡ seq_id

pub empty-IsSetOf : (peers : List NodeInfo) → IsSetOf peers []
empty-IsSetOf peers = record { distinct = tt; within = λ a h. absurd (ground (arith, h)) }

pub insert-IsSetOf :
    (a : NodeInfo) (peers nodes : List NodeInfo)
    → mem_node a peers ≡ true
    → IsSetOf peers nodes
    → IsSetOf peers (insert_node a nodes)
insert-IsSetOf a peers nodes m h = record {
  distinct = insert-IsDistinct a nodes h.distinct;
  within = insert-IsIn a nodes peers m h.within;
}

-- A set of as many nodes as the peers are has each of them.
pub has_all :
    (peers nodes : List NodeInfo)
    → IsSetOf peers nodes
    → (length nodes == length peers) ≡ true
    → (a : NodeInfo) → mem_node a peers ≡ true
    → mem_node a nodes ≡ true
has_all peers nodes h e =
    all_are-IsIn nodes peers h.distinct h.within (==→eq (length nodes) (length peers) e)

check-current :
    (seq_id : ℕ) (s : Service)
    → (s.current_seq_id ≡ seq_id) ⊎ (s.current_seq_id ≡ init_seq_id)
    → (check_and_update_current_seq_id seq_id s).0 ≡ record s { current_seq_id = seq_id }
unfolding check_and_update_current_seq_id
check-current seq_id s h = elim (Bool-cases (s.current_seq_id == init_seq_id)) [
  | inl z ↦ rw z refl
  | inr n ↦ elim h [ inl e ↦ simp (n, sym e) refl | inr e ↦ absurd (ground (arith, n, e)) ]
]

-- An operation of the round leaves the service alone, or marks it and names the sequence id.
abbrev Begun : ℕ → (Service → Service) → Service → Service → Type 0
Begun seq_id mark s t = (t ≡ s) ⊎ (t ≡ record (mark s) { current_seq_id = seq_id })

state_of_if :
    (b : Bool) (x y : Service × Put) (t : Service) → x.0 ≡ t → y.0 ≡ t → (if b then x else y).0 ≡ t
state_of_if true x y t p q = p
state_of_if false x y t p q = q

multi_put-Begun :
    (running : Bool) (registers : TensorMemoryInfo → Bool) (seq_id : ℕ)
    (atensors : List (ShardedKey × TensorMemoryInfo)) (s : Service)
    → (s.current_seq_id ≡ seq_id) ⊎ (s.current_seq_id ≡ init_seq_id)
    → Begun seq_id set_write s (multi_put running registers seq_id atensors s).0
unfolding multi_put set_write
multi_put-Begun false registers seq_id atensors s h = inl refl
multi_put-Begun true registers seq_id [] s h = inl refl
multi_put-Begun true registers seq_id (entry ∷ rest) s h =
    let c = check_and_update_current_seq_id seq_id (set_write s) in
    inr (
      state_of_if (not c.1) _ _ c.0 refl (
        state_of_if c.0.is_publish_meta _ _ c.0 refl
          (state_of_if (not (register_all registers (entry ∷ rest))) _ _ c.0 refl refl))
      ∙ check-current seq_id (set_write s) h)

begin_read-Begun :
    (running : Bool) (seq_id : ℕ) (s : Service)
    → (s.current_seq_id ≡ seq_id) ⊎ (s.current_seq_id ≡ init_seq_id)
    → Begun seq_id set_read s (begin_read running seq_id s).0
unfolding begin_read set_read
begin_read-Begun false seq_id s h = inl refl
begin_read-Begun true seq_id s h = inr (check-current seq_id (set_read s) h)

Begun-IsParty_write :
    (seq_id : ℕ) (self : NodeInfo) (peers : List NodeInfo) (s t : Service)
    → Begun seq_id set_write s t
    → IsParty seq_id self peers s.is_write s
    → IsParty seq_id self peers t.is_write t
      × (t.ready_nodes ≡ s.ready_nodes)
      × (t.consumed_nodes ≡ s.consumed_nodes)
unfolding set_write
Begun-IsParty_write seq_id self peers s t (inl e) h = rw e (h, refl, refl)
Begun-IsParty_write seq_id self peers s t (inr e) h = rw e (
  record {
    local = h.local;
    hosts = h.hosts;
    ready = h.ready;
    consumed = h.consumed;
    current = inl refl;
    named = λ w. refl;
  },
  refl,
  refl,
)

Begun-IsParty_read :
    (seq_id : ℕ) (self : NodeInfo) (peers : List NodeInfo) (s t : Service)
    → Begun seq_id set_read s t
    → IsParty seq_id self peers s.is_read s
    → IsParty seq_id self peers t.is_read t
      × (t.ready_nodes ≡ s.ready_nodes)
      × (t.consumed_nodes ≡ s.consumed_nodes)
unfolding set_read
Begun-IsParty_read seq_id self peers s t (inl e) h = rw e (h, refl, refl)
Begun-IsParty_read seq_id self peers s t (inr e) h = rw e (
  record {
    local = h.local;
    hosts = h.hosts;
    ready = h.ready;
    consumed = h.consumed;
    current = inl refl;
    named = λ w. refl;
  },
  refl,
  refl,
)

-- An operation of a writer in its round keeps it a party and its sets.
pub multi_put-IsParty :
    (running : Bool) (registers : TensorMemoryInfo → Bool) (seq_id : ℕ)
    (atensors : List (ShardedKey × TensorMemoryInfo)) (self : NodeInfo) (peers : List NodeInfo)
    (s t : Service) (p : Put)
    → multi_put running registers seq_id atensors s ≡ (t, p)
    → IsParty seq_id self peers s.is_write s
    → IsParty seq_id self peers t.is_write t
      × (t.ready_nodes ≡ s.ready_nodes)
      × (t.consumed_nodes ≡ s.consumed_nodes)
multi_put-IsParty running registers seq_id atensors self peers s t p e h =
    Begun-IsParty_write seq_id self peers s t
      (subst (λ (r : Service × Put). Begun seq_id set_write s r.0) e
        (multi_put-Begun running registers seq_id atensors s h.current))
      h

pub begin_read-IsParty :
    (running : Bool) (seq_id : ℕ) (self : NodeInfo) (peers : List NodeInfo) (s t : Service)
    (ok : Bool)
    → begin_read running seq_id s ≡ (t, ok)
    → IsParty seq_id self peers s.is_read s
    → IsParty seq_id self peers t.is_read t
      × (t.ready_nodes ≡ s.ready_nodes)
      × (t.consumed_nodes ≡ s.consumed_nodes)
begin_read-IsParty running seq_id self peers s t ok e h =
    Begun-IsParty_read seq_id self peers s t
      (subst (λ (r : Service × Bool). Begun seq_id set_read s r.0) e
        (begin_read-Begun running seq_id s h.current))
      h

pub reset-IsParty :
    (seq_id seq_id' : ℕ) (self : NodeInfo) (peers : List NodeInfo) (working : Bool) (s : Service)
    → IsParty seq_id self peers working s
    → IsParty seq_id' self peers false (reset s)
unfolding reset
reset-IsParty seq_id seq_id' self peers working s h = record {
  local = h.local;
  hosts = h.hosts;
  ready = empty-IsSetOf peers;
  consumed = empty-IsSetOf peers;
  current = inr refl;
  named = λ w. cc;
}

-- A message from a node of the peers keeps its receiver a party.
pub Readied-IsParty :
    (from : NodeInfo) (seq_id : ℕ) (self : NodeInfo) (peers : List NodeInfo) (working : Bool → Bool)
    (s t : Service)
    → mem_node from peers ≡ true
    → Readied from s t
    → IsParty seq_id self peers (working s.is_read) s
    → IsParty seq_id self peers (working t.is_read) t
Readied-IsParty from seq_id self peers working s t m (inl e) h = rw e h
Readied-IsParty from seq_id self peers working s t m (inr e) h = rw e (record {
  local = h.local;
  hosts = h.hosts;
  ready = insert-IsSetOf from peers s.ready_nodes m h.ready;
  consumed = h.consumed;
  current = h.current;
  named = h.named;
})

pub Consumed-IsParty :
    (from : NodeInfo) (seq_id : ℕ) (self : NodeInfo) (peers : List NodeInfo) (working : Bool → Bool)
    (s t : Service)
    → mem_node from peers ≡ true
    → Consumed from s t
    → IsParty seq_id self peers (working s.is_write) s
    → IsParty seq_id self peers (working t.is_write) t
Consumed-IsParty from seq_id self peers working s t m (inl e) h = rw e h
Consumed-IsParty from seq_id self peers working s t m (inr e) h = rw e (record {
  local = h.local;
  hosts = h.hosts;
  ready = h.ready;
  consumed = insert-IsSetOf from peers s.consumed_nodes m h.consumed;
  current = h.current;
  named = h.named;
})
