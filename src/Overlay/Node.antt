-- ===== src/Overlay/Node.antt =====
-- The overlays of a node, src/overlay/node.rs: who gets a message or a query. What the serializer
-- reads of them is a parameter.
pub mod Isolated
use tiny_adnl.Prelude.{
  ℕ, Bool, true, false, Option, none, some, Result, ok, err, List, [], ◌==◌, if◌then◌else◌, not,
}
use tiny_adnl.Rldp.Compression.{Zstd}
use tiny_adnl.Rldp.Incoming.{DecoderEngine}
use tiny_adnl.Overlay.Defs.{
  OverlayOptions, OverlayError, OverlayNode, OverlayBroadcast, OverlayBroadcastFec, Overlay,
}
use tiny_adnl.Overlay.Broadcasts.{OverlayCrypto, receive_broadcast}
use tiny_adnl.Overlay.Fec.{receive_fec_broadcast}
use tiny_adnl.Overlay.Peers.{new_overlay, process_get_random_peers}

-- `proto::overlay::Broadcast`; the others are the ones that the node does not take.
pub data Broadcast : Type 0 where
  whole : OverlayBroadcast → Broadcast
  in_parts : OverlayBroadcastFec → Broadcast
  unsupported : Broadcast

pub data NodeError : Type 0 where
  unsupported_overlay_broadcast_message unknown_overlay no_consumer_found unsupported_query :
      NodeError
  not_readable : NodeError
  failed : OverlayError → NodeError

-- What is left of a message or a query after its constructor.
pub record OverlayReader : Type 0 where
  pub message_id : ℕ
  pub query_id : ℕ
  pub get_random_peers_id : ℕ
  pub read_message : List ℕ → Option (ℕ × Broadcast)
  pub read_query : List ℕ → Option (ℕ × (ℕ × List ℕ))
  pub read_peers : List ℕ → Option (List OverlayNode)

-- `rejected` without the query; an answer to `OverlayGetRandomPeers` before it is serialized.
pub data QueryConsumingResult : Type 0 where
  rejected : QueryConsumingResult
  answered : Option (List ℕ) → QueryConsumingResult
  random_peers : List OverlayNode → QueryConsumingResult

abbrev pub Subscriber : Type 0
Subscriber = ℕ → List ℕ → Result NodeError QueryConsumingResult

pub record NodeState (D : Type 0) : Type 0 where
  pub overlays : ℕ → Option (Overlay D)
  pub subscribers : ℕ → Option Subscriber

module _ {D : Type 0} where
  abbrev pub put_overlay : NodeState D → ℕ → Overlay D → NodeState D
  put_overlay s id o = record s { overlays = λ i. if i == id then some o else s.overlays i }

  pub add_overlay_subscriber : NodeState D → ℕ → Subscriber → NodeState D × Bool
  add_overlay_subscriber s id subscriber = elim (s.subscribers id) [
    | some _ ↦ (s, false)
    | none ↦
        (record s { subscribers = λ i. if i == id then some subscriber else s.subscribers i }, true)
  ]

  module _ (choose : List ℕ → ℕ → List ℕ) where
    pub add_private_overlay :
        NodeState D → ℕ → ℕ → List ℕ → OverlayOptions → NodeState D × (Overlay D × Bool)
    add_private_overlay s id overlay_key peers options = elim (s.overlays id) [
      | some o ↦ (s, (o, false))
      | none ↦
          let o = new_overlay choose overlay_key id peers options in (put_overlay s id o, (o, true))
    ]

    pub add_public_overlay : NodeState D → ℕ → ℕ → OverlayOptions → NodeState D × (Overlay D × Bool)
    add_public_overlay s id node_key options = elim (s.overlays id) [
      | some o ↦ (s, (o, false))
      | none ↦ let o = new_overlay choose node_key id [] options in (put_overlay s id o, (o, true))
    ]

    module _ (c : OverlayCrypto) (z : Zstd) (d : DecoderEngine D) (reader : OverlayReader) where
      -- What the call of an overlay leaves, and whether it failed.
      pub consumed :
          NodeState D
          → ℕ
          → Overlay D × Result OverlayError (List ℕ)
          → NodeState D × Result NodeError Bool
      consumed s id (o, outcome) =
          (put_overlay s id o, elim outcome [ ok _ ↦ ok true | err x ↦ err (failed x) ])

      -- `none` is a call that does not end.
      pub try_consume_custom :
          NodeState D → ℕ → ℕ → ℕ → List ℕ → Option (NodeState D × Result NodeError Bool)
      try_consume_custom s now peer_id constructor bytes =
          if not (constructor == reader.message_id)
          then some (s, ok false)
          else elim (reader.read_message bytes) [
            | none ↦ some (s, err not_readable)
            | some (id, broadcast) ↦ elim (s.overlays id) [
              | none ↦ some (s, err unknown_overlay)
              | some o ↦ elim broadcast [
                | whole b ↦ some (consumed s id (receive_broadcast c z choose o now peer_id b))
                | in_parts b ↦ elim (receive_fec_broadcast c d z choose o now peer_id b) [
                  | none ↦ none
                  | some after ↦ some (consumed s id after)
                ]
                | unsupported ↦ some (s, err unsupported_overlay_broadcast_message)
              ]
            ]
          ]

      pub try_consume_query :
          NodeState D → ℕ → ℕ → List ℕ → NodeState D × Result NodeError QueryConsumingResult
      try_consume_query s now constructor query =
          if not (constructor == reader.query_id)
          then (s, ok rejected)
          else elim (reader.read_query query) [
            | none ↦ (s, err not_readable)
            | some (id, (inner, body)) ↦
                if inner == reader.get_random_peers_id
                then elim (reader.read_peers body) [
                  | none ↦ (s, err not_readable)
                  | some nodes ↦ elim (s.overlays id) [
                    | none ↦ (s, err unknown_overlay)
                    | some o ↦
                        let (o', answer) = process_get_random_peers c choose o now nodes in
                        (put_overlay s id o', ok (random_peers answer))
                  ]
                ]
                else (
                  s,
                  elim (s.subscribers id) [
                    | none ↦ err no_consumer_found
                    | some consumer ↦ elim (consumer inner body) [
                      | err x ↦ err x
                      | ok rejected ↦ err unsupported_query
                      | ok (answered answer) ↦ ok (answered answer)
                      | ok (random_peers nodes) ↦ ok (random_peers nodes)
                    ]
                  ],
                )
          ]
