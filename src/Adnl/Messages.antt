-- ===== src/Adnl/Messages.antt =====
-- What a node does with a message of a packet, `process_message` of src/adnl/node/receiver.rs: parts
-- go to Adnl/Transfers, answers to Adnl/Queries, channels to Adnl/Node, and answers of subscribers
-- are sent by Adnl/Sender. Subscribers and the serializer are parameters. The task that ends a
-- transfer that is too old is left out.
pub mod Intact
mod Tests
use tiny_adnl.Prelude.{
  ℕ, Bool, true, false, Option, none, some, Result, ok, err, List, [], ◌∷◌, ◌++◌, if◌then◌else◌,
  ◌==◌, not,
}
use tiny_adnl.Adnl.Transfer.{TransferError, Outcome, pending, complete, failed}
use tiny_adnl.Adnl.Transfers.{Transfers, process_part}
use tiny_adnl.Adnl.Queries.{QueriesCache, update_query}
use tiny_adnl.Adnl.Channel.{Keys, ChannelCreationContext, create_channel, confirm_channel}
use tiny_adnl.Adnl.Node.{Node, NodeError, put_peer}
use tiny_adnl.Adnl
use tiny_adnl.Adnl.Sender.Messages.{
  AdnlMessage, answer_message, query_message, custom_message, confirm_message, create_message,
  part_message, reinit_message, nop_message, SentPacket, AdnlSenderError, send_message,
}

pub data MessageError : Type 0 where
  invalid_packet no_subscribers_for_custom_message no_subscribers_for_query : MessageError
  unknown_message not_parsed subscriber_failed : MessageError
  of_transfer : TransferError → MessageError
  of_node : NodeError → MessageError
  of_sender : AdnlSenderError → MessageError

-- What a message can reach.
pub record NodeStores : Type 0 where
  pub node : Node
  pub transfers : Transfers
  pub queries : QueriesCache
  pub sent : List SentPacket

-- `none` is a subscriber's error; of a query's answer, the outer `none` of the result is a rejection.
pub record MessageContext : Type 0 where
  pub keys : Keys
  pub write : AdnlMessage → List ℕ
  pub parse : List ℕ → Option AdnlMessage
  pub digest : List ℕ → ℕ
  pub is_key : ℕ → Bool
  pub local_keys : ℕ → Option ℕ
  pub full_id : ℕ → ℕ
  pub public_key : ℕ → ℕ
  pub custom : List ℕ → Option Bool
  pub query : List ℕ → Option (Option (Option (List ℕ)))

abbrev pub Processed : Type 0
Processed = NodeStores × Result {0, 0} MessageError Unit

module _ (c : MessageContext) (now local_id peer_id : ℕ) where
  -- `send_message`, with the peer whose counters it raises put back.
  pub send : NodeStores → AdnlMessage → Bool → Processed
  send s message priority =
      elim (send_message c.write c.digest c.local_keys c.full_id c.public_key s.node now local_id
        peer_id message priority) [
          | err x ↦ (s, err (of_sender x))
          | ok (peer, packets) ↦ (
            record s {
              node = elim (s.node.peers local_id) [
                | none ↦ s.node
                | some peers ↦ put_peer s.node local_id peers peer_id (some peer)
              ];
              sent = s.sent ++ packets;
            },
            ok tt,
          )
        ]

  pub process_channel : NodeStores → ℕ → ℕ → ChannelCreationContext → Processed
  process_channel s key date context =
      let (node, outcome) =
        Adnl.Node.create_channel c.keys s.node local_id peer_id key date context in
      if c.is_key key
      then (record s { node = node }, elim outcome [ ok _ ↦ ok tt | err x ↦ err (of_node x) ])
      else (s, err invalid_packet)

  -- The last `match`.
  pub process_whole : NodeStores → AdnlMessage → Bool → Processed
  process_whole s (answer_message id answer) priority =
      (record s { queries = update_query s.queries id answer }, ok tt)
  process_whole s (confirm_message key peer_key date) priority =
      process_channel s key date confirm_channel
  process_whole s (create_message key date) priority = process_channel s key date create_channel
  process_whole s (custom_message bytes) priority = elim (c.custom bytes) [
    | none ↦ (s, err subscriber_failed)
    | some taken ↦ (s, if taken then ok tt else err no_subscribers_for_custom_message)
  ]
  process_whole s nop_message priority = (s, ok tt)
  process_whole s (query_message id query) priority = elim (c.query query) [
    | none ↦ (s, err subscriber_failed)
    | some none ↦ (s, err no_subscribers_for_query)
    | some (some none) ↦ (s, ok tt)
    | some (some (some answer)) ↦ send s (answer_message id answer) priority
  ]
  process_whole s (part_message hash total offset bytes) priority = (s, err unknown_message)
  process_whole s (reinit_message date) priority = (s, err unknown_message)

  -- A part whose message is complete is followed by the message. `none` is a joining loop that is
  -- still running.
  pub process_joined : NodeStores → Option Outcome → Bool → Option Processed
  process_joined s none priority = none
  process_joined s (some pending) priority = some (s, ok tt)
  process_joined s (some (failed x)) priority = some (s, err (of_transfer x))
  process_joined s (some (complete bytes)) priority = elim (c.parse bytes) [
    | none ↦ some (s, err not_parsed)
    | some message ↦ some (process_whole s message priority)
  ]

  pub process_message : ℕ → NodeStores → AdnlMessage → Bool → Option Processed
  process_message fuel s (part_message hash total offset bytes) priority =
      let (transfers, outcome) =
        process_part c.digest fuel s.transfers
          (record { hash = hash; total_size = total; offset = offset; bytes = bytes }) in
      process_joined (record s { transfers = transfers }) outcome priority
  process_message fuel s message priority = some (process_whole s message priority)
