-- ===== src/Adnl/Node.antt =====
-- The state of src/adnl/node/mod.rs and what changes its peers and channels, there and in
-- src/adnl/node/receiver.rs. A channel is shared by the tables: they hold its place in `store`.
-- Short ids and public keys are numbers. A key pair that is generated is an argument.
pub mod Links
pub mod Linked
pub mod Reach
pub mod Removed
pub mod Created
mod Tests
use tiny_adnl.Prelude.{
  ℕ, ◌+◌, Bool, true, false, Option, none, some, Result, ok, err, List, [], ◌∷◌, if◌then◌else◌, leb,
  ◌==◌, ◌||◌, ◌&&◌, not, max, same_bytes,
}
use tiny_adnl.Adnl.Peer.{SocketAddr, Peer, reset_peer}
use tiny_adnl.Adnl.Peer
use tiny_adnl.Adnl.Channel.{
  Channel, ChannelCreationContext, Keys, is_still_valid, is_confirmed, set_ready, sub_side,
  update_drop_timeout, reset_drop_timeout,
}
use tiny_adnl.Adnl.Channel

pub record NodeOptions : Type 0 where
  pub query_min_timeout_ms : ℕ
  pub query_default_timeout_ms : ℕ
  pub transfer_timeout_sec : ℕ
  pub clock_tolerance_sec : ℕ
  pub channel_reset_timeout_sec : ℕ
  pub address_list_timeout_sec : ℕ
  pub packet_history_enabled : Bool
  pub packet_signature_required : Bool
  pub force_use_priority_channels : Bool
  pub use_loopback_for_neighbours : Bool
  pub version : Option ℕ

pub data NodeError : Type 0 where
  already_running peers_not_found unknown_peer unknown_peer_in_channel : NodeError

pub data NewPeerContext : Type 0 where
  adnl_packet dht_context public_overlay : NewPeerContext

abbrev pub Peers : Type 0
Peers = ℕ → Option Peer

-- `channels_by_id` tells the priority channel from the ordinary one.
pub record Node : Type 0 where
  pub socket_addr : SocketAddr
  pub options : NodeOptions
  pub peers : ℕ → Option Peers
  pub store : ℕ → Option Channel
  pub next_place : ℕ
  pub channels_by_id : List ℕ → Option (ℕ × Bool)
  pub channels_by_peers : ℕ → Option ℕ
  pub start_time : ℕ

-- A node that is just made, with an empty table of peers for each key.
pub new_node : SocketAddr → NodeOptions → (ℕ → Bool) → ℕ → Node
new_node socket_addr options has_key now = record {
  socket_addr = socket_addr;
  options = options;
  peers = λ local_id. if has_key local_id then some (λ _. none) else none;
  store = λ _. none;
  next_place = 0;
  channels_by_id = λ _. none;
  channels_by_peers = λ _. none;
  start_time = now;
}

pub compute_query_timeout : NodeOptions → Option ℕ → ℕ
compute_query_timeout o none = max o.query_min_timeout_ms o.query_default_timeout_ms
compute_query_timeout o (some roundtrip) = max o.query_min_timeout_ms roundtrip

abbrev pub same_addr : SocketAddr → SocketAddr → Bool
same_addr a b =
    a.octet0 == b.octet0
    && (a.octet1 == b.octet1
        && (a.octet2 == b.octet2 && (a.octet3 == b.octet3 && a.port == b.port)))

abbrev pub put_peer : Node → ℕ → Peers → ℕ → Option Peer → Node
put_peer n local_id peers peer_id peer = record n {
  peers =
      λ l. if l == local_id then some (λ p. if p == peer_id then peer else peers p) else n.peers l;
}

-- The node itself, and whom the filter does not let pass.
pub refused :
    Node
    → Option (NewPeerContext → SocketAddr → ℕ → Bool)
    → NewPeerContext
    → ℕ
    → ℕ
    → SocketAddr
    → Bool
refused n none ctx local_id peer_id addr = peer_id == local_id || same_addr addr n.socket_addr
refused n (some check) ctx local_id peer_id addr =
    (peer_id == local_id || same_addr addr n.socket_addr) || not (check ctx addr peer_id)

pub add_peer :
    Node
    → Option (NewPeerContext → SocketAddr → ℕ → Bool)
    → ℕ
    → NewPeerContext
    → ℕ
    → ℕ
    → SocketAddr
    → ℕ
    → Node × Result NodeError Bool
add_peer n filter channel_key ctx local_id peer_id addr peer_id_full =
    if refused n filter ctx local_id peer_id addr then (n, ok false) else elim (n.peers local_id) [
      | none ↦ (n, err NodeError.peers_not_found)
      | some peers ↦ elim (peers peer_id) [
        | some peer ↦ (put_peer n local_id peers peer_id (some (Peer.set_addr peer addr)), ok true)
        | none ↦ (
          put_peer n local_id peers peer_id
              (some (Peer.new channel_key n.start_time addr peer_id_full)),
          ok true,
        )
      ]
    ]

abbrev pub in_id : Channel → Bool → List ℕ
in_id ch priority = (sub_side ch.channel_in priority).id

pub forget_id : (List ℕ → Option (ℕ × Bool)) → List ℕ → List ℕ → Option (ℕ × Bool)
forget_id by_id id j = if same_bytes id j then none else by_id j

pub remember_id : (List ℕ → Option (ℕ × Bool)) → List ℕ → ℕ × Bool → List ℕ → Option (ℕ × Bool)
remember_id by_id id entry j = if same_bytes id j then some entry else by_id j

-- Both ids of a channel are taken out, or put in.
pub forget_channel : (List ℕ → Option (ℕ × Bool)) → Channel → List ℕ → Option (ℕ × Bool)
forget_channel by_id ch = forget_id (forget_id by_id (in_id ch false)) (in_id ch true)

pub remember_channel : (List ℕ → Option (ℕ × Bool)) → Channel → ℕ → List ℕ → Option (ℕ × Bool)
remember_channel by_id ch place =
    remember_id (remember_id by_id (in_id ch false) (place, false)) (in_id ch true) (place, true)

abbrev pub put_channel : (ℕ → Option Channel) → ℕ → Channel → ℕ → Option Channel
put_channel store place ch i = if i == place then some ch else store i

-- `channels_by_peers.remove(peer_id)` and what follows it.
pub remove_channel : Node → ℕ → Node
remove_channel n peer_id = elim (n.channels_by_peers peer_id) [
  | none ↦ n
  | some place ↦ record n {
    channels_by_peers = λ p. if p == peer_id then none else n.channels_by_peers p;
    channels_by_id = elim (n.store place) [
      | none ↦ n.channels_by_id
      | some removed ↦ forget_channel n.channels_by_id removed
    ];
  }
]

pub remove_peer : Node → ℕ → ℕ → Node × Result NodeError Bool
remove_peer n local_id peer_id = elim (n.peers local_id) [
  | none ↦ (n, err NodeError.peers_not_found)
  | some peers ↦ (
    put_peer (remove_channel n peer_id) local_id peers peer_id none,
    ok (elim (peers peer_id) [ none ↦ false | some _ ↦ true ]),
  )
]

pub reset_node_peer : Node → ℕ → ℕ → ℕ → Node × Result NodeError (Unit {0})
reset_node_peer n channel_key local_id peer_id = elim (n.peers local_id) [
  | none ↦ (n, err NodeError.peers_not_found)
  | some peers ↦ elim (peers peer_id) [
    | none ↦ (n, err NodeError.unknown_peer)
    | some peer ↦ (
      put_peer (remove_channel n peer_id) local_id peers peer_id
          (some (reset_peer channel_key peer)),
      ok tt,
    )
  ]
]

module _ (k : Keys) where
  -- The channel gets a new place, in `channels_by_peers` and under both its ids.
  pub insert_channel : Node → (List ℕ → Option (ℕ × Bool)) → ℕ → Channel → Node
  insert_channel n by_id peer_id ch = record n {
    store = put_channel n.store n.next_place ch;
    next_place = n.next_place + 1;
    channels_by_peers = λ p. if p == peer_id then some n.next_place else n.channels_by_peers p;
    channels_by_id = remember_channel by_id ch n.next_place;
  }

  pub create_channel :
      Node → ℕ → ℕ → ℕ → ℕ → ChannelCreationContext → Node × Result NodeError (Unit {0})
  create_channel n local_id peer_id public_key date context = elim (n.peers local_id) [
    | none ↦ (n, err NodeError.peers_not_found)
    | some peers ↦ elim (peers peer_id) [
      | none ↦ (n, err NodeError.unknown_peer_in_channel)
      | some peer ↦
          let new_channel =
            Channel.new k local_id peer_id peer.channel_key public_key date context in
          elim (n.channels_by_peers peer_id) [
            | none ↦ (insert_channel n n.channels_by_id peer_id new_channel, ok tt)
            | some place ↦ elim (n.store place) [
              | none ↦ (insert_channel n n.channels_by_id peer_id new_channel, ok tt)
              | some channel ↦
                  if is_still_valid channel public_key date
                  then (if is_confirmed context
                      then (
                        record n { store = put_channel n.store place (set_ready channel) },
                        ok tt,
                      )
                      else (n, ok tt))
                  else (
                    insert_channel n (forget_channel n.channels_by_id channel) peer_id new_channel,
                    ok tt,
                  )
            ]
          ]
    ]
  ]

-- A packet that was decrypted makes its channel ready and resets the clock.
unfoldable pub touch_channel : Node → ℕ → Channel → Node
touch_channel n place ch = record n {
  store = put_channel n.store place (reset_drop_timeout (set_ready ch));
}

-- What `query_raw` does when its query has no answer, with the channel that it found before.
pub query_timed_out : Node → ℕ → ℕ → ℕ → ℕ → Option ℕ → Node × Result NodeError (Unit {0})
query_timed_out n channel_key now local_id peer_id channel = elim channel [
  | none ↦ (n, ok tt)
  | some place ↦ elim (n.store place) [
    | none ↦ (n, ok tt)
    | some ch ↦
        let updated = update_drop_timeout ch now n.options.channel_reset_timeout_sec in
        let n' : Node = record n { store = put_channel n.store place updated.0 } in
        if updated.1 then reset_node_peer n' channel_key local_id peer_id else (n', ok tt)
  ]
]
