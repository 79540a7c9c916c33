-- ===== src/Transfer/Invariant.antt =====
-- Every interleaving keeps the rounds of writers and readers in step.
use asystem_astate.Base.{
  ℕ, ◌^◌, ◌<◌, ◌≡◌, sym, subst, Bool, true, false, if◌then◌else◌, inl, inr, Bool-cases, List, arith,
}
use asystem_astate.Protocol.Json.{Json, IsJson}
use asystem_astate.Protocol.Nodes.{NodeInfo}
use asystem_astate.Protocol.Roundtrip.Nodes.{IsNode}
use asystem_astate.Transfer.Hosts.{same_node, same_node-eq, mem_node}
use asystem_astate.Transfer.Service.{
  Service, ready_text, consumed_text, handle_weight_ready, handle_weight_consumed,
}
use asystem_astate.Transfer.Messages.{Readied, Consumed, Readied-arrival, Consumed-arrival}
use asystem_astate.Transfer.Rounds.{
  announcing, notifying, System, drop_node, at, Step, writes, reads, announces, notifies, Reach,
  here, next,
}
use asystem_astate.Transfer.Pairs.{told, stage, Synced}
use asystem_astate.Transfer.Deliveries.{
  announced_to, announced_besides, notified_to, notified_besides, Readied-others, Consumed-others,
}
use asystem_astate.Transfer.Parties.{IsParty, Readied-IsParty, Consumed-IsParty}
use asystem_astate.Transfer.Steps.{
  Pair, IsSynced, engaged_writer, engaged_reader, writer_at, reader_at, replace_writer,
  replace_reader, replace_both, Writes-Pair, Writes-IsWriter, Reads-Pair, Reads-IsReader,
}

module _ (json : Json) (laws : IsJson json) (seq_of : ℕ → ℕ) (writers readers : List NodeInfo)
    (words : (n : ℕ) → seq_of n < 2 ^ 64)
    (writer_nodes : (w : NodeInfo) → mem_node w writers ≡ true → IsNode w)
    (reader_nodes : (r : NodeInfo) → mem_node r readers ≡ true → IsNode r) where
  current-word :
      (n : ℕ) (self : NodeInfo) (peers : List NodeInfo) (working : Bool) (s : Service)
      → IsParty (seq_of n) self peers working s
      → s.current_seq_id < 2 ^ 64
  current-word n self peers working s h = elim h.current [
    | inl e ↦ subst (λ k. k < 2 ^ 64) (sym e) (words n)
    | inr e ↦ subst (λ k. k < 2 ^ 64) (sym e) (omega arith)
  ]

  announces-IsSynced :
      (s : System) (w r : NodeInfo) (rest : List NodeInfo) (delivered : Bool)
      → mem_node w writers ≡ true
      → (s.writer w).phase ≡ announcing rest
      → mem_node r rest ≡ true
      → mem_node r readers ≡ true
      → IsSynced json laws seq_of writers readers s
      → IsSynced json laws seq_of writers readers (record {
        writer = at w (record (s.writer w) { phase = announcing (drop_node r rest) }) s.writer;
        reader =
            if delivered
            then at r
                (record (s.reader r) {
                  service =
                      (handle_weight_ready json
                        (ready_text json (s.writer w).service)
                        (s.reader r).service).0;
                })
                s.reader
            else s.reader;
      })
  announces-IsSynced s w r rest false m e k l h =
      replace_writer json laws seq_of writers readers s w
        (record (s.writer w) { phase = announcing (drop_node r rest) }) h
        (writer_at json laws seq_of writers readers w (s.writer w) (announcing rest) e
          (h.writer w m))
        (λ v j. elim (Bool-cases (same_node v r)) [
          | inl q ↦
              subst
                (λ u.
                  Pair w (record (s.writer w) { phase = announcing (drop_node r rest) }) u
                    (s.reader u))
                (sym (same_node-eq v r q))
                (announced_to w r (s.writer w) (s.reader r) rest
                  (mem_node w (s.reader r).service.ready_nodes) e k (h.pair w r m l))
          | inr q ↦ announced_besides w r v (s.writer w) (s.reader v) rest e q (h.pair w v m j)
        ])
  announces-IsSynced s w r rest true m e k l h =
      let x = s.writer w in
      let y = s.reader r in
      let t = (handle_weight_ready json (ready_text json x.service) y.service).0 in
      let p = writer_at json laws seq_of writers readers w x (announcing rest) e (h.writer w m) in
      let lands : Readied w y.service t =
        subst (λ n. Readied n y.service t) p.local
          (Readied-arrival json laws x.service y.service
            (current-word x.round w readers true x.service p)
            (subst IsNode (sym p.local) (writer_nodes w m))) in
      replace_both json laws seq_of writers readers s w r
        (record x { phase = announcing (drop_node r rest) }) (record y { service = t }) h p
        (Readied-IsParty w (seq_of y.round) r writers (engaged_reader y.phase) y.service t m lands
          (h.reader r l))
        (announced_to w r x y rest (mem_node w t.ready_nodes) e k (h.pair w r m l))
        (λ v n j. announced_besides w r v x (s.reader v) rest e n (h.pair w v m j))
        (λ v n j.
          subst
            (λ b.
              Synced (told (s.writer v).phase r) b (mem_node r (s.writer v).service.consumed_nodes)
                (s.writer v).round y.round (stage y.phase v))
            (sym (Readied-others w v y.service t n lands)) (h.pair v r j l))

  notifies-IsSynced :
      (s : System) (w r : NodeInfo) (rest : List NodeInfo) (delivered : Bool)
      → mem_node r readers ≡ true
      → (s.reader r).phase ≡ notifying rest
      → mem_node w rest ≡ true
      → mem_node w writers ≡ true
      → IsSynced json laws seq_of writers readers s
      → IsSynced json laws seq_of writers readers (record {
        writer =
            if delivered
            then at w
                (record (s.writer w) {
                  service =
                      (handle_weight_consumed json
                        (consumed_text json (s.reader r).service)
                        (s.writer w).service).0;
                })
                s.writer
            else s.writer;
        reader = at r (record (s.reader r) { phase = notifying (drop_node w rest) }) s.reader;
      })
  notifies-IsSynced s w r rest false m e k l h =
      replace_reader json laws seq_of writers readers s r
        (record (s.reader r) { phase = notifying (drop_node w rest) }) h
        (reader_at json laws seq_of writers readers r (s.reader r) (notifying rest) e
          (h.reader r m))
        (λ v j. elim (Bool-cases (same_node v w)) [
          | inl q ↦
              subst
                (λ u.
                  Pair u (s.writer u) r
                    (record (s.reader r) { phase = notifying (drop_node w rest) }))
                (sym (same_node-eq v w q))
                (notified_to w r (s.writer w) (s.reader r) rest
                  (mem_node r (s.writer w).service.consumed_nodes) e k (h.pair w r l m))
          | inr q ↦ notified_besides w r v (s.writer v) (s.reader r) rest e q (h.pair v r j m)
        ])
  notifies-IsSynced s w r rest true m e k l h =
      let x = s.writer w in
      let y = s.reader r in
      let t = (handle_weight_consumed json (consumed_text json y.service) x.service).0 in
      let p = reader_at json laws seq_of writers readers r y (notifying rest) e (h.reader r m) in
      let lands : Consumed r x.service t =
        subst (λ n. Consumed n x.service t) p.local
          (Consumed-arrival json laws y.service x.service
            (current-word y.round r writers true y.service p)
            (subst IsNode (sym p.local) (reader_nodes r m))) in
      replace_both json laws seq_of writers readers s w r (record x { service = t })
        (record y { phase = notifying (drop_node w rest) }) h
        (Consumed-IsParty r (seq_of x.round) w readers (engaged_writer x.phase) x.service t m lands
          (h.writer w l))
        p (notified_to w r x y rest (mem_node r t.consumed_nodes) e k (h.pair w r l m))
        (λ v n j.
          subst
            (λ b.
              Synced (told x.phase v) (mem_node w (s.reader v).service.ready_nodes) b x.round
                (s.reader v).round (stage (s.reader v).phase w))
            (sym (Consumed-others r v x.service t n lands)) (h.pair w v l j))
        (λ v n j. notified_besides w r v (s.writer v) y rest e n (h.pair v r j m))

  step-IsSynced :
      (s t : System)
      → Step json seq_of writers readers s t
      → IsSynced json laws seq_of writers readers s
      → IsSynced json laws seq_of writers readers t
  step-IsSynced s t (writes w x m d) h =
      replace_writer json laws seq_of writers readers s w x h
        (Writes-IsWriter json laws seq_of writers readers w (s.writer w) x d (h.writer w m))
        (λ r k.
          Writes-Pair json laws seq_of writers readers w r (s.writer w) x (s.reader r) d
            (h.writer w m) k (h.pair w r m k))
  step-IsSynced s t (reads r y m d) h =
      replace_reader json laws seq_of writers readers s r y h
        (Reads-IsReader json laws seq_of writers readers r (s.reader r) y d (h.reader r m))
        (λ w k.
          Reads-Pair json laws seq_of writers readers w r (s.writer w) (s.reader r) y d
            (h.reader r m) k (h.pair w r k m))
  step-IsSynced s t (announces w r rest delivered m e k l) h =
      announces-IsSynced s w r rest delivered m e k l h
  step-IsSynced s t (notifies w r rest delivered m e k l) h =
      notifies-IsSynced s w r rest delivered m e k l h

  pub Reach-IsSynced :
      (s t : System)
      → Reach json seq_of writers readers s t
      → IsSynced json laws seq_of writers readers s
      → IsSynced json laws seq_of writers readers t
  Reach-IsSynced s t here h = h
  Reach-IsSynced s t (next {t = u} r d) h = step-IsSynced u t d (Reach-IsSynced s u r h)
