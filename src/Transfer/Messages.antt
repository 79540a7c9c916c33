-- ===== src/Transfer/Messages.antt =====
-- A message of `Complete` changes nothing in the service that handles it but the set it is for.
use asystem_astate.Base.{
  ◌<◌, ◌^◌, ◌≡◌, refl, sym, ap, ◌∙◌, subst, true, if◌then◌else◌, inl, inr, ◌⊎◌, Bool-cases, none,
  some, ◌>>=◌, [], ◌∷◌,
}
use asystem_astate.Protocol.Json.{Json, IsJson}
use asystem_astate.Protocol.Nodes.{
  NodeInfo, node_to_json, weight_ready_to_json, weight_ready_from_json, weight_consumed_to_json,
  weight_consumed_from_json,
}
use asystem_astate.Protocol.Roundtrip.Nodes.{IsNode, accepts, weights-read}
use asystem_astate.Transfer.Hosts.{insert_node}
use asystem_astate.Transfer.Service.{
  Service, weights_are_ready, weights_are_consumed, signed_lt, ready_text, consumed_text,
  handle_weight_ready, handle_weight_consumed,
}

-- What a service may be after a message from a node: as it was, or with the node in the set.
abbrev pub Readied : NodeInfo → Service → Service → Type 0
Readied from s t = (t ≡ s) ⊎ (t ≡ record s { ready_nodes = insert_node from s.ready_nodes })

abbrev pub Consumed : NodeInfo → Service → Service → Type 0
Consumed from s t = (t ≡ s) ⊎ (t ≡ record s { consumed_nodes = insert_node from s.consumed_nodes })

module _ (json : Json) (laws : IsJson json) where
  node-signed : (info : NodeInfo) → laws.IsSigned (node_to_json json info)
  unfolding node_to_json
  node-signed info =
      laws.object_signed _ (laws.string_signed _, (laws.int_signed _, (laws.int_signed _, tt)))

  weights-signed :
      (sender : Service)
      → laws.IsSigned (
          json.object (
            ("seq_id", json.of_int64 sender.current_seq_id)
            ∷ ("node_info", node_to_json json sender.local_node_info)
            ∷ []))
  weights-signed sender =
      laws.object_signed
        (("seq_id", json.of_int64 sender.current_seq_id)
          ∷ ("node_info", node_to_json json sender.local_node_info)
          ∷ [])
        (laws.int64_signed _, (node-signed sender.local_node_info, tt))

  -- What the receiver reads from the message.
  ready-text :
      (sender : Service)
      → sender.current_seq_id < 2 ^ 64
      → IsNode sender.local_node_info
      → (json.parse (ready_text json sender) >>= weight_ready_from_json json) ≡ (
          if accepts sender.local_node_info
          then some (record { seq_id = sender.current_seq_id; node_info = sender.local_node_info })
          else none)
  unfolding ready_text weight_ready_to_json
  ready-text sender b n =
      rw (laws.read_back _ (weights-signed sender))
        (weights-read json laws sender.current_seq_id sender.local_node_info b n).0

  consumed-text :
      (sender : Service)
      → sender.current_seq_id < 2 ^ 64
      → IsNode sender.local_node_info
      → (json.parse (consumed_text json sender) >>= weight_consumed_from_json json) ≡ (
          if accepts sender.local_node_info
          then some (record { seq_id = sender.current_seq_id; node_info = sender.local_node_info })
          else none)
  unfolding consumed_text weight_consumed_to_json
  consumed-text sender b n =
      rw (laws.read_back _ (weights-signed sender))
        (weights-read json laws sender.current_seq_id sender.local_node_info b n).1

  -- A delivered message puts its sender into the set, if its ports are accepted.
  pub ready_delivered :
      (sender s : Service)
      → sender.current_seq_id < 2 ^ 64
      → IsNode sender.local_node_info
      → accepts sender.local_node_info ≡ true
      → (handle_weight_ready json (ready_text json sender) s).0
        ≡ record s { ready_nodes = insert_node sender.local_node_info s.ready_nodes }
  unfolding handle_weight_ready weights_are_ready
  ready_delivered sender s b n a =
      ap (λ o. (weights_are_ready o s).0) (ready-text sender b n) ∙ rw a refl

  pub Readied-arrival :
      (sender s : Service)
      → sender.current_seq_id < 2 ^ 64
      → IsNode sender.local_node_info
      → Readied sender.local_node_info s (handle_weight_ready json (ready_text json sender) s).0
  unfolding handle_weight_ready weights_are_ready
  Readied-arrival sender s b n =
      subst (λ o. Readied sender.local_node_info s (weights_are_ready o s).0)
        (sym (ready-text sender b n))
        (elim (Bool-cases (accepts sender.local_node_info)) [
          | inl a ↦ rw a (inr refl)
          | inr a ↦ rw a (inl refl)
        ])

  pub Consumed-arrival :
      (sender s : Service)
      → sender.current_seq_id < 2 ^ 64
      → IsNode sender.local_node_info
      → Consumed sender.local_node_info s
          (handle_weight_consumed json (consumed_text json sender) s).0
  unfolding handle_weight_consumed weights_are_consumed
  Consumed-arrival sender s b n =
      subst (λ o. Consumed sender.local_node_info s (weights_are_consumed o s).0)
        (sym (consumed-text sender b n))
        (elim (Bool-cases (accepts sender.local_node_info)) [
          | inl a ↦ rw a (elim (Bool-cases (signed_lt sender.current_seq_id s.current_seq_id)) [
            | inl old ↦ rw old (inl refl)
            | inr new ↦ rw new (inr refl)
          ])
          | inr a ↦ rw a (inl refl)
        ])
