-- ===== src/Transfer/Deliveries.antt =====
-- What a message does to a writer and a reader, and what it leaves alone.
use asystem_astate.Base.{
  ◌≡◌, refl, sym, ap, subst, Bool, true, false, not, if◌then◌else◌, inl, inr, List, arith,
}
use asystem_astate.Protocol.Nodes.{NodeInfo}
use asystem_astate.Transfer.Hosts.{same_node, same_node_refl, mem_node, insert_node, mem-insert}
use asystem_astate.Transfer.Service.{Service}
use asystem_astate.Transfer.Messages.{Readied, Consumed}
use asystem_astate.Transfer.Rounds.{announcing, notifying, Writer, Reader, drop_node}
use asystem_astate.Transfer.Pairs.{told, stage, Synced, mem-drop}
use asystem_astate.Transfer.Pairs
use asystem_astate.Transfer.Steps.{Pair, at_phase, at_stage}

dropped : (a : NodeInfo) (xs : List NodeInfo) → mem_node a (drop_node a xs) ≡ false
dropped a xs = ground (arith, mem-drop a a xs, same_node_refl a)

kept :
    (a b : NodeInfo) (xs : List NodeInfo)
    → same_node a b ≡ false
    → mem_node a (drop_node b xs) ≡ mem_node a xs
kept a b xs n = ground (arith, mem-drop a b xs, n)

not_inserted :
    (a b : NodeInfo) (xs : List NodeInfo)
    → same_node a b ≡ false
    → mem_node a (insert_node b xs) ≡ mem_node a xs
not_inserted a b xs n = ground (arith, mem-insert a b xs, n)

-- Telling one reader.
pub announced_to :
    (w r : NodeInfo) (x : Writer) (y : Reader) (rest : List NodeInfo) (ready : Bool)
    → x.phase ≡ announcing rest
    → mem_node r rest ≡ true
    → Pair w x r y
    → Synced
        (not (mem_node r (drop_node r rest)))
        ready
        (mem_node r x.service.consumed_nodes)
        x.round
        y.round
        (stage y.phase w)
announced_to w r x y rest ready e m d =
    subst
      (λ b.
        Synced (not b) ready (mem_node r x.service.consumed_nodes) x.round y.round
          (stage y.phase w))
      (sym (dropped r rest)) (Pairs.tells (ap not m) (at_phase w r x y (announcing rest) e d))

pub announced_besides :
    (w r v : NodeInfo) (x : Writer) (y : Reader) (rest : List NodeInfo)
    → x.phase ≡ announcing rest
    → same_node v r ≡ false
    → Pair w x v y
    → Pair w (record x { phase = announcing (drop_node r rest) }) v y
announced_besides w r v x y rest e n d =
    subst
      (λ b.
        Synced (not b) (mem_node w y.service.ready_nodes) (mem_node v x.service.consumed_nodes)
          x.round y.round (stage y.phase w))
      (sym (kept v r rest n)) (at_phase w v x y (announcing rest) e d)

-- Telling one writer.
pub notified_to :
    (w r : NodeInfo) (x : Writer) (y : Reader) (rest : List NodeInfo) (consumed : Bool)
    → y.phase ≡ notifying rest
    → mem_node w rest ≡ true
    → Pair w x r y
    → Synced
        (told x.phase r)
        (mem_node w y.service.ready_nodes)
        consumed
        x.round
        y.round
        (if mem_node w (drop_node w rest) then 2 else 3)
notified_to w r x y rest consumed e m d =
    subst
      (λ b.
        Synced (told x.phase r) (mem_node w y.service.ready_nodes) consumed x.round y.round
          (if b then 2 else 3))
      (sym (dropped w rest))
      (Pairs.notifies (
        subst
          (λ b.
            Synced (told x.phase r) (mem_node w y.service.ready_nodes)
              (mem_node r x.service.consumed_nodes) x.round y.round (if b then 2 else 3))
          m (at_stage w r x y (notifying rest) e d)))

pub notified_besides :
    (w r v : NodeInfo) (x : Writer) (y : Reader) (rest : List NodeInfo)
    → y.phase ≡ notifying rest
    → same_node v w ≡ false
    → Pair v x r y
    → Pair v x r (record y { phase = notifying (drop_node w rest) })
notified_besides w r v x y rest e n d =
    subst
      (λ b.
        Synced (told x.phase r) (mem_node v y.service.ready_nodes)
          (mem_node r x.service.consumed_nodes) x.round y.round (if b then 2 else 3))
      (sym (kept v w rest n)) (at_stage v r x y (notifying rest) e d)

-- What a message from one node leaves of the others in the set.
pub Readied-others :
    (from v : NodeInfo) (s t : Service)
    → same_node v from ≡ false
    → Readied from s t
    → mem_node v t.ready_nodes ≡ mem_node v s.ready_nodes
Readied-others from v s t n (inl e) = rw e refl
Readied-others from v s t n (inr e) = rw e (not_inserted v from s.ready_nodes n)

pub Consumed-others :
    (from v : NodeInfo) (s t : Service)
    → same_node v from ≡ false
    → Consumed from s t
    → mem_node v t.consumed_nodes ≡ mem_node v s.consumed_nodes
Consumed-others from v s t n (inl e) = rw e refl
Consumed-others from v s t n (inr e) = rw e (not_inserted v from s.consumed_nodes n)
