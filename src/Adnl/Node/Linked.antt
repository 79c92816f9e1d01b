-- ===== src/Adnl/Node/Linked.antt =====
-- The tables of channels of src/adnl/node/mod.rs in every state that a node can reach.
use tiny_adnl.Prelude.{
  ℕ, ◌≡◌, ◌⊎◌, refl, sym, ap, Bool, Option, none, some, ◌==◌, arith, Option-cases, Bool-cases, inl,
  inr,
}
use mathlib.Core.Path.{subst}
use tiny_adnl.Adnl.Peer.{SocketAddr, Peer}
use tiny_adnl.Adnl.Peer
use tiny_adnl.Adnl.Channel.{Channel, set_ready, reset_drop_timeout, update_drop_timeout, sub_side}
use tiny_adnl.Adnl.Node.{
  Peers, refused, Node, NewPeerContext, put_peer, remove_channel, remove_peer, reset_node_peer,
  touch_channel, query_timed_out, add_peer, put_channel,
}
use tiny_adnl.Adnl.Node.Links.{Links, replace-Links, remove-Links}

abbrev pub Linked : Node → Type 0
Linked n = Links n.store n.next_place n.channels_by_id n.channels_by_peers

pub remove_channel-Linked : (n : Node) (peer_id : ℕ) → Linked n → Linked (remove_channel n peer_id)
unfolding remove_channel
remove_channel-Linked n peer_id k = elim (Option-cases (n.channels_by_peers peer_id)) [
  | inl e ↦ rw (e, remove_channel) k
  | inr (place, e) ↦
      let l = k.by_peer peer_id place e in
      rw (e, l.stored, remove_channel)
        (remove-Links n.store n.next_place n.channels_by_id n.channels_by_peers k peer_id place
          l.channel e l.stored)
]

pub remove_peer-Linked :
    (n : Node) (local_id peer_id : ℕ) → Linked n → Linked (remove_peer n local_id peer_id).0
unfolding remove_peer
remove_peer-Linked n local_id peer_id k = elim (Option-cases (n.peers local_id)) [
  | inl e ↦ rw (e, remove_peer) k
  | inr (peers, e) ↦ rw (e, remove_peer) (remove_channel-Linked n peer_id k)
]

reset_node_peer-Linked :
    (n : Node) (channel_key local_id peer_id : ℕ)
    → Linked n
    → Linked (reset_node_peer n channel_key local_id peer_id).0
unfolding reset_node_peer
reset_node_peer-Linked n channel_key local_id peer_id k = elim (Option-cases (n.peers local_id)) [
  | inl e ↦ rw (e, reset_node_peer) k
  | inr (peers, e) ↦ elim (Option-cases (peers peer_id)) [
    | inl e' ↦ rw (e, e', reset_node_peer) k
    | inr (peer, e') ↦ rw (e, e', reset_node_peer) (remove_channel-Linked n peer_id k)
  ]
]

replace-Linked :
    (n : Node) (place : ℕ) (ch ch' : Channel)
    → Linked n
    → n.store place ≡ some ch
    → ch'.peer_id ≡ ch.peer_id
    → ch'.channel_in ≡ ch.channel_in
    → Linked (record n { store = put_channel n.store place ch' })
replace-Linked n place ch ch' k there peer sides =
    replace-Links n.store n.next_place n.channels_by_id n.channels_by_peers k place ch ch' there
      peer (λ priority. ap (λ s. (sub_side s priority).id) sides)

pub ready-Linked :
    (n : Node) (place : ℕ) (ch : Channel)
    → Linked n
    → n.store place ≡ some ch
    → Linked (record n { store = put_channel n.store place (set_ready ch) })
unfolding set_ready
ready-Linked n place ch k there = replace-Linked n place ch _ k there refl refl

pub touch_channel-Linked :
    (n : Node) (place : ℕ) (ch : Channel)
    → Linked n
    → n.store place ≡ some ch
    → Linked (touch_channel n place ch)
unfolding touch_channel set_ready reset_drop_timeout
touch_channel-Linked n place ch k there = replace-Linked n place ch _ k there refl refl

updated-Linked :
    (n : Node) (place : ℕ) (ch : Channel) (now timeout : ℕ)
    → Linked n
    → n.store place ≡ some ch
    → Linked (record n { store = put_channel n.store place (update_drop_timeout ch now timeout).0 })
unfolding update_drop_timeout
updated-Linked n place ch now timeout k there = elim (Bool-cases (ch.drop_at == 0)) [
  | inl e ↦ replace-Linked n place ch _ k there (ground arith) (ground arith)
  | inr e ↦ replace-Linked n place ch _ k there (ground arith) (ground arith)
]

pub query_timed_out-Linked :
    (n : Node) (channel_key now local_id peer_id : ℕ) (channel : Option ℕ)
    → Linked n
    → Linked (query_timed_out n channel_key now local_id peer_id channel).0
unfolding query_timed_out
query_timed_out-Linked n channel_key now local_id peer_id none k = k
query_timed_out-Linked n channel_key now local_id peer_id (some place) k =
    elim (Option-cases (n.store place)) [
      | inl e ↦ rw (e, query_timed_out) k
      | inr (ch, e) ↦
          let timeout = n.options.channel_reset_timeout_sec in
          let k' = updated-Linked n place ch now timeout k e in
          elim (Bool-cases (update_drop_timeout ch now timeout).1) [
            | inl late ↦
                rw (e, late, query_timed_out)
                  (reset_node_peer-Linked _ channel_key local_id peer_id k')
            | inr soon ↦ rw (e, soon, query_timed_out) k'
          ]
    ]

-- A peer that is added changes nothing but one entry of the peers.
add_peer-cases :
    (n : Node) (filter : Option (NewPeerContext → SocketAddr → ℕ → Bool)) (channel_key : ℕ)
    (ctx : NewPeerContext) (local_id peer_id : ℕ) (addr : SocketAddr) (peer_id_full : ℕ)
    → let n' = (add_peer n filter channel_key ctx local_id peer_id addr peer_id_full).0 in
      (n' ≡ n)
      ⊎ ((peers : Peers) × (peer : Peer) × (n' ≡ put_peer n local_id peers peer_id (some peer)))
unfolding add_peer
add_peer-cases n filter channel_key ctx local_id peer_id addr peer_id_full =
    elim (Bool-cases (refused n filter ctx local_id peer_id addr)) [
      | inl out ↦ inl (ground (arith, out))
      | inr pass ↦ elim (Option-cases (n.peers local_id)) [
        | inl e ↦ inl (ground (arith, pass, e))
        | inr (peers, e) ↦ elim (Option-cases (peers peer_id)) [
          | inl u ↦ inr (
            peers,
            Peer.new channel_key n.start_time addr peer_id_full,
            ground (arith, pass, e, u),
          )
          | inr (peer, u) ↦ inr (peers, Peer.set_addr peer addr, ground (arith, pass, e, u))
        ]
      ]
    ]

put_peer-Linked :
    (n : Node) (local_id : ℕ) (peers : Peers) (peer_id : ℕ) (peer : Option Peer)
    → Linked n
    → Linked (put_peer n local_id peers peer_id peer)
put_peer-Linked n local_id peers peer_id peer k = k

pub add_peer-Linked :
    (n : Node) (filter : Option (NewPeerContext → SocketAddr → ℕ → Bool)) (channel_key : ℕ)
    (ctx : NewPeerContext) (local_id peer_id : ℕ) (addr : SocketAddr) (peer_id_full : ℕ)
    → Linked n
    → Linked (add_peer n filter channel_key ctx local_id peer_id addr peer_id_full).0
add_peer-Linked n filter channel_key ctx local_id peer_id addr peer_id_full k =
    elim (add_peer-cases n filter channel_key ctx local_id peer_id addr peer_id_full) [
      | inl e ↦ subst Linked (sym e) k
      | inr (peers, peer, e) ↦
          subst Linked (sym e) (put_peer-Linked n local_id peers peer_id (some peer) k)
    ]
