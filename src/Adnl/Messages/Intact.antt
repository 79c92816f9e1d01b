-- ===== src/Adnl/Messages/Intact.antt =====
-- Messages keep the tables of a node in order, src/adnl/node/receiver.rs.
use tiny_adnl.Prelude.{ℕ, Bool, Option, none, some, Bool-cases, Option-cases, inl, inr}
use tiny_adnl.Adnl.Transfer.{Outcome, pending, complete, failed}
use tiny_adnl.Adnl.Transfers.{process_part}
use tiny_adnl.Adnl.Channel.{ChannelCreationContext, create_channel, confirm_channel}
use tiny_adnl.Adnl.Node.Linked as NodeLinked
use tiny_adnl.Adnl.Node.Reach.{create_channel-Linked}
use tiny_adnl.Adnl.Queries.Linked as QueriesLinked
use tiny_adnl.Adnl.Receiver.Stages.{Result-cases}
use tiny_adnl.Adnl.Sender.Messages.{
  AdnlMessage, answer_message, query_message, custom_message, confirm_message, create_message,
  part_message, reinit_message, nop_message, send_message,
}
use tiny_adnl.Adnl.Messages.{
  MessageContext, NodeStores, Processed, send, process_channel, process_whole, process_joined,
  process_message,
}

-- Ids and peers lead only to channels of theirs, and waiting queries to open senders of theirs.
pub record Intact (s : NodeStores) : Type 0 where
  pub channels : NodeLinked.Linked s.node
  pub queries : QueriesLinked.Linked s.queries

-- What a call leaves, if it ends.
abbrev pub IntactAfter : Option Processed → Type 0
IntactAfter none = Unit
IntactAfter (some (s, _)) = Intact s

module _ (c : MessageContext) (now local_id peer_id : ℕ) where
  send-Intact :
      (s : NodeStores) (message : AdnlMessage) (priority : Bool)
      → Intact s
      → Intact (send c now local_id peer_id s message priority).0
  unfolding send
  send-Intact s message priority i =
      elim (Result-cases (
        send_message c.write c.digest c.local_keys c.full_id c.public_key s.node now local_id
          peer_id message priority)) [
            | inl (x, failed_to) ↦ rw (send, failed_to) i
            | inr ((peer, packets), done) ↦ elim (Option-cases (s.node.peers local_id)) [
              | inl unknown ↦
                  rw (send, done, unknown) (record { channels = i.channels; queries = i.queries })
              | inr (peers, known) ↦
                  rw (send, done, known) (record { channels = i.channels; queries = i.queries })
            ]
          ]

  process_channel-Intact :
      (s : NodeStores) (key date : ℕ) (context : ChannelCreationContext)
      → Intact s
      → Intact (process_channel c now local_id peer_id s key date context).0
  unfolding process_channel
  process_channel-Intact s key date context i = elim (Bool-cases (c.is_key key)) [
    | inr bad ↦ rw (process_channel, bad) i
    | inl good ↦
        rw (process_channel, good)
          (record {
            channels =
                create_channel-Linked c.keys s.node local_id peer_id key date context i.channels;
            queries = i.queries;
          })
  ]

  process_whole-Intact :
      (s : NodeStores) (message : AdnlMessage) (priority : Bool)
      → Intact s
      → Intact (process_whole c now local_id peer_id s message priority).0
  unfolding process_whole
  process_whole-Intact s (answer_message id answer) priority i = record {
    channels = i.channels;
    queries = QueriesLinked.update_query-Linked s.queries id answer i.queries;
  }
  process_whole-Intact s (confirm_message key peer_key date) priority i =
      process_channel-Intact s key date confirm_channel i
  process_whole-Intact s (create_message key date) priority i =
      process_channel-Intact s key date create_channel i
  process_whole-Intact s (custom_message bytes) priority i = elim (Option-cases (c.custom bytes)) [
    | inl failed_to ↦ rw (process_whole, failed_to) i
    | inr (taken, told) ↦ rw (process_whole, told) i
  ]
  process_whole-Intact s nop_message priority i = i
  process_whole-Intact s (query_message id query) priority i = elim (Option-cases (c.query query)) [
    | inl failed_to ↦ rw (process_whole, failed_to) i
    | inr (none, told) ↦ rw (process_whole, told) i
    | inr (some none, told) ↦ rw (process_whole, told) i
    | inr (some (some answer), told) ↦
        rw (process_whole, told) (send-Intact s (answer_message id answer) priority i)
  ]
  process_whole-Intact s (part_message hash total offset bytes) priority i = i
  process_whole-Intact s (reinit_message date) priority i = i

  process_joined-IntactAfter :
      (s : NodeStores) (outcome : Option Outcome) (priority : Bool)
      → Intact s
      → IntactAfter (process_joined c now local_id peer_id s outcome priority)
  unfolding process_joined
  process_joined-IntactAfter s none priority i = tt
  process_joined-IntactAfter s (some pending) priority i = i
  process_joined-IntactAfter s (some (failed x)) priority i = i
  process_joined-IntactAfter s (some (complete bytes)) priority i =
      elim (Option-cases (c.parse bytes)) [
        | inl unread ↦ rw (process_joined, unread) i
        | inr (message, read) ↦
            rw (process_joined, read) (process_whole-Intact s message priority i)
      ]

  -- Whatever a message is, and whatever the subscribers say, a message that has been processed leaves
  -- the tables of channels and of queries in order, if they were.
  pub process_message-IntactAfter :
      (fuel : ℕ) (s : NodeStores) (message : AdnlMessage) (priority : Bool)
      → Intact s
      → IntactAfter (process_message c now local_id peer_id fuel s message priority)
  unfolding process_message
  process_message-IntactAfter fuel s (part_message hash total offset bytes) priority i =
      let (transfers, outcome) =
        process_part c.digest fuel s.transfers
          (record { hash = hash; total_size = total; offset = offset; bytes = bytes }) in
      process_joined-IntactAfter (record s { transfers = transfers }) outcome priority
        (record { channels = i.channels; queries = i.queries })
  process_message-IntactAfter fuel s (answer_message id answer) priority i =
      process_whole-Intact s (answer_message id answer) priority i
  process_message-IntactAfter fuel s (confirm_message key peer_key date) priority i =
      process_whole-Intact s (confirm_message key peer_key date) priority i
  process_message-IntactAfter fuel s (create_message key date) priority i =
      process_whole-Intact s (create_message key date) priority i
  process_message-IntactAfter fuel s (custom_message bytes) priority i =
      process_whole-Intact s (custom_message bytes) priority i
  process_message-IntactAfter fuel s nop_message priority i =
      process_whole-Intact s nop_message priority i
  process_message-IntactAfter fuel s (query_message id query) priority i =
      process_whole-Intact s (query_message id query) priority i
  process_message-IntactAfter fuel s (reinit_message date) priority i =
      process_whole-Intact s (reinit_message date) priority i
