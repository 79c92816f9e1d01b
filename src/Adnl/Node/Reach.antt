-- ===== src/Adnl/Node/Reach.antt =====
-- The states that a node of src/adnl/node/mod.rs can reach.
use tiny_adnl.Prelude.{ℕ, ◌≡◌, refl, Bool, Option, none, some, Option-cases, Bool-cases, inl, inr}
use mathlib.Core.Option.{none-ne-some}
use tiny_adnl.Adnl.Peer.{SocketAddr}
use tiny_adnl.Adnl.Channel.{
  Channel, ChannelCreationContext, Keys, set_ready, reset_drop_timeout, update_drop_timeout,
  is_still_valid, sub_side, is_confirmed,
}
use tiny_adnl.Adnl.Channel
use tiny_adnl.Adnl.Node.{
  Node, NodeOptions, NewPeerContext, new_node, remove_peer, create_channel, insert_channel,
  touch_channel, query_timed_out, add_peer, forget_channel,
}
use tiny_adnl.Adnl.Node.Links.{remove-Links, absent-Links, enter-Links}
use tiny_adnl.Adnl.Node.Linked.{
  Linked, remove_peer-Linked, touch_channel-Linked, query_timed_out-Linked, add_peer-Linked,
  ready-Linked,
}

module _ (ks : Keys) where
  new_owner :
      (local_id peer_id key public_key date : ℕ) (context : ChannelCreationContext)
      → (Channel.new ks local_id peer_id key public_key date context).peer_id ≡ peer_id
  unfolding Channel.new
  new_owner local_id peer_id key public_key date context = refl

  entered-Linked :
      (n : Node) (peer_id : ℕ) (ch : Channel)
      → Linked n
      → n.channels_by_peers peer_id ≡ none
      → ch.peer_id ≡ peer_id
      → Linked (insert_channel ks n n.channels_by_id peer_id ch)
  unfolding insert_channel
  entered-Linked n peer_id ch k absent peer =
      enter-Links n.store n.next_place n.channels_by_id n.channels_by_peers peer_id ch
        (absent-Links n.store n.next_place n.channels_by_id n.channels_by_peers k peer_id absent)
        peer

  renewed-Linked :
      (n : Node) (peer_id place : ℕ) (old ch : Channel)
      → Linked n
      → n.channels_by_peers peer_id ≡ some place
      → n.store place ≡ some old
      → ch.peer_id ≡ peer_id
      → Linked (insert_channel ks n (forget_channel n.channels_by_id old) peer_id ch)
  unfolding insert_channel
  renewed-Linked n peer_id place old ch k present there peer =
      enter-Links n.store n.next_place (forget_channel n.channels_by_id old) n.channels_by_peers
        peer_id ch
        (remove-Links n.store n.next_place n.channels_by_id n.channels_by_peers k peer_id place old
          present there)
        peer

  pub create_channel-Linked :
      (n : Node) (local_id peer_id public_key date : ℕ) (context : ChannelCreationContext)
      → Linked n
      → Linked (create_channel ks n local_id peer_id public_key date context).0
  unfolding create_channel
  create_channel-Linked n local_id peer_id public_key date context k =
      elim (Option-cases (n.peers local_id)) [
        | inl e ↦ rw (e, create_channel) k
        | inr (peers, e) ↦ elim (Option-cases (peers peer_id)) [
          | inl u ↦ rw (e, u, create_channel) k
          | inr (peer, u) ↦
              let ch = Channel.new ks local_id peer_id peer.channel_key public_key date context in
              let owner = new_owner local_id peer_id peer.channel_key public_key date context in
              elim (Option-cases (n.channels_by_peers peer_id)) [
                | inl absent ↦
                    rw (e, u, absent, create_channel) (entered-Linked n peer_id ch k absent owner)
                | inr (place, present) ↦
                    let l = k.by_peer peer_id place present in
                    elim (Bool-cases (is_still_valid l.channel public_key date)) [
                      | inr outdated ↦
                          rw (e, u, present, l.stored, outdated, create_channel)
                            (renewed-Linked n peer_id place l.channel ch k present l.stored owner)
                      | inl valid ↦ elim (Bool-cases (is_confirmed context)) [
                        | inl confirmed ↦
                            rw (e, u, present, l.stored, valid, confirmed, create_channel)
                              (ready-Linked n place l.channel k l.stored)
                        | inr created ↦
                            rw (e, u, present, l.stored, valid, created, create_channel) k
                      ]
                    ]
              ]
        ]
      ]

  -- What the node does with its tables, in the order in which it does it.
  pub data Reach (start : Node) : Node → Type 0 where
    here : Reach start start
    peer_added :
        {n : Node} (filter : Option (NewPeerContext → SocketAddr → ℕ → Bool)) (channel_key : ℕ)
        (ctx : NewPeerContext) (local_id peer_id : ℕ) (addr : SocketAddr) (peer_id_full : ℕ)
        → Reach start n
        → Reach start (add_peer n filter channel_key ctx local_id peer_id addr peer_id_full).0
    peer_removed :
        {n : Node} (local_id peer_id : ℕ)
        → Reach start n
        → Reach start (remove_peer n local_id peer_id).0
    channel_created :
        {n : Node} (local_id peer_id public_key date : ℕ) (context : ChannelCreationContext)
        → Reach start n
        → Reach start (create_channel ks n local_id peer_id public_key date context).0
    channel_touched :
        {n : Node} (place : ℕ) (ch : Channel)
        → Reach start n
        → n.store place ≡ some ch
        → Reach start (touch_channel n place ch)
    query_failed :
        {n : Node} (channel_key now local_id peer_id : ℕ) (channel : Option ℕ)
        → Reach start n
        → Reach start (query_timed_out n channel_key now local_id peer_id channel).0

  pub new_node-Linked :
      (addr : SocketAddr) (options : NodeOptions) (has_key : ℕ → Bool) (now : ℕ)
      → Linked (new_node addr options has_key now)
  unfolding new_node
  new_node-Linked addr options has_key now = record {
    by_id = λ id place priority e. absurd (none-ne-some _ e);
    by_peer = λ peer_id place e. absurd (none-ne-some _ e);
  }

  -- In every state that a new node can reach, an id leads only to a channel that receives under this
  -- id and is the present channel of its peer, and a peer leads only to a channel with this peer.
  pub Reach-Linked :
      (addr : SocketAddr) (options : NodeOptions) (has_key : ℕ → Bool) (now : ℕ) (n : Node)
      → Reach (new_node addr options has_key now) n
      → Linked n
  Reach-Linked addr options has_key now n here = new_node-Linked addr options has_key now
  Reach-Linked addr options has_key now n (peer_added filter key ctx local_id peer_id at full r) =
      add_peer-Linked _ filter key ctx local_id peer_id at full
        (Reach-Linked addr options has_key now _ r)
  Reach-Linked addr options has_key now n (peer_removed local_id peer_id r) =
      remove_peer-Linked _ local_id peer_id (Reach-Linked addr options has_key now _ r)
  Reach-Linked addr options has_key now n (channel_created local_id peer_id key date context r) =
      create_channel-Linked _ local_id peer_id key date context
        (Reach-Linked addr options has_key now _ r)
  Reach-Linked addr options has_key now n (channel_touched place ch r there) =
      touch_channel-Linked _ place ch (Reach-Linked addr options has_key now _ r) there
  Reach-Linked addr options has_key now n (query_failed key time local_id peer_id channel r) =
      query_timed_out-Linked _ key time local_id peer_id channel
        (Reach-Linked addr options has_key now _ r)
