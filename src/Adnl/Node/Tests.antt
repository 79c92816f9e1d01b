-- ===== src/Adnl/Node/Tests.antt =====
-- The tables of src/adnl/node at a concrete node.
use tiny_adnl.Prelude.{
  ◌≡◌, ◌==◌, refl, true, false, none, some, ok, if◌then◌else◌, ◌∷◌, replicate, ◌+◌,
}
use tiny_adnl.Adnl.Peer.{SocketAddr, Peer}
use tiny_adnl.Adnl.Peer
use tiny_adnl.Adnl.Channel.{Keys, create_channel, confirm_channel}
use tiny_adnl.Adnl.Node.{
  Node, NodeOptions, Peers, adnl_packet, new_node, add_peer, refused, insert_channel,
}
use tiny_adnl.Adnl.Node
use tiny_adnl.Adnl.Node.Linked.{Linked, add_peer-Linked}
use tiny_adnl.Adnl.Node.Reach.{
  here, peer_added, channel_created, Reach-Linked, new_node-Linked, create_channel-Linked,
}
use tiny_adnl.Adnl.Node.Created.{Created, create_channel-Created}

abbrev keys : Keys
keys = record {
  compute_shared_secret = λ key public. (key + public) ∷ 3 ∷ replicate 30 1;
  compute_channel_id = λ secret. secret;
}

abbrev options : NodeOptions
options = record {
  query_min_timeout_ms = 500;
  query_default_timeout_ms = 5000;
  transfer_timeout_sec = 3;
  clock_tolerance_sec = 60;
  channel_reset_timeout_sec = 30;
  address_list_timeout_sec = 1000;
  packet_history_enabled = true;
  packet_signature_required = true;
  force_use_priority_channels = false;
  use_loopback_for_neighbours = false;
  version = none;
}

abbrev home : SocketAddr
home = record { octet0 = 127; octet1 = 0; octet2 = 0; octet3 = 1; port = 1000 }

abbrev away : SocketAddr
away = record { octet0 = 127; octet1 = 0; octet2 = 0; octet3 = 1; port = 2000 }

abbrev started : Node
started = new_node home options (λ id. id == 1) 50

abbrev acquainted : Node
acquainted = (add_peer started none 7 adnl_packet 1 2 away 20).0

abbrev connected : Node
connected = (Node.create_channel keys acquainted 1 2 8 60 create_channel).0

Reach-Linked_example : Linked connected
Reach-Linked_example =
    Reach-Linked keys home options (λ id. id == 1) 50 connected
      (channel_created 1 2 8 60 create_channel (peer_added none 7 adnl_packet 1 2 away 20 here))

connected-Linked : Linked connected
connected-Linked = create_channel-Linked keys acquainted 1 2 8 60 create_channel (
    add_peer-Linked started none 7 adnl_packet 1 2 away 20
      (new_node-Linked keys home options (λ id. id == 1) 50))

abbrev table : Peers
table p = if p == 2 then some (Peer.new 7 50 away 20) else none

table_known : connected.peers 1 ≡ some table
unfolding new_node add_peer refused Node.create_channel insert_channel
table_known = refl

create_channel-Created_example :
    ((Node.create_channel keys connected 1 2 9 61 confirm_channel).1 ≡ ok tt)
    × Created keys connected (Node.create_channel keys connected 1 2 9 61 confirm_channel).0 2 9 61
create_channel-Created_example =
    create_channel-Created keys connected 1 2 9 61 confirm_channel table (Peer.new 7 50 away 20)
      connected-Linked table_known refl
