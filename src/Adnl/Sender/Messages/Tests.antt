-- ===== src/Adnl/Sender/Messages/Tests.antt =====
-- The theorems on the messages of src/adnl/node/sender.rs at a concrete node.
use tiny_adnl.Prelude.{
  ℕ, ◌+◌, ◌^◌, ◌<◌, ◌≡◌, true, false, none, some, List, [], ◌∷◌, ◌==◌, if◌then◌else◌, length, arith,
}
use tiny_adnl.Util.PacketsHistory.Start.{count_up}
use tiny_adnl.Adnl.Peer.{SocketAddr, PeerState, Peer, history, pack_socket_addr}
use tiny_adnl.Adnl.Packet.{OutgoingMessages}
use tiny_adnl.Adnl.Node.{Node, NodeOptions, Peers}
use tiny_adnl.Adnl.Sender.Messages.{AdnlMessage, custom_message, by_key, send_packets}
use tiny_adnl.Adnl.Sender.Messages.Numbers.{numbers_of, send_packets-count_up}

abbrev options : NodeOptions
options = record {
  query_min_timeout_ms = 500;
  query_default_timeout_ms = 5000;
  transfer_timeout_sec = 3;
  clock_tolerance_sec = 60;
  channel_reset_timeout_sec = 30;
  address_list_timeout_sec = 1000;
  packet_history_enabled = true;
  packet_signature_required = true;
  force_use_priority_channels = false;
  use_loopback_for_neighbours = true;
  version = none;
}

abbrev home : SocketAddr
home = record { octet0 = 10; octet1 = 0; octet2 = 0; octet3 = 1; port = 1000 }

abbrev counted : ℕ → PeerState
counted seqno = record {
  ordinary_history = record { mask = none; seqno = seqno };
  priority_history = record { mask = none; seqno = seqno };
  reinit_date = 40;
}

abbrev neighbour : Peer
neighbour = record {
  id = 20;
  addr = pack_socket_addr (record home { port = 2000 });
  channel_key = 7;
  receiver_state = counted 0;
  sender_state = counted 4;
}

abbrev table : Peers
table id = if id == 2 then some neighbour else none

abbrev node : Node
node = record {
  socket_addr = home;
  options = options;
  peers = λ id. if id == 1 then some table else none;
  store = λ _. none;
  next_place = 0;
  channels_by_id = λ _. none;
  channels_by_peers = λ _. none;
  start_time = 50;
}

abbrev written : AdnlMessage → List ℕ
written (custom_message bytes) = 9 ∷ bytes
written message = 8 ∷ []

abbrev hello : AdnlMessage
hello = custom_message (1 ∷ 2 ∷ 3 ∷ [])

not_wrapped : (history neighbour.sender_state false).seqno + 2 < 2 ^ 64
unfolding history
not_wrapped = omega arith

abbrev two_bodies : List OutgoingMessages
two_bodies = OutgoingMessages.single (1 ∷ []) ∷ OutgoingMessages.single (2 ∷ []) ∷ []

send_packets-count_up_example :
    numbers_of false (send_packets node (λ key. key) 100 neighbour (by_key 1) two_bodies).1
    ≡ count_up
        (length
          (numbers_of false (send_packets node (λ key. key) 100 neighbour (by_key 1) two_bodies).1))
        (history neighbour.sender_state false).seqno
send_packets-count_up_example =
    send_packets-count_up node (λ key. key) 100 (by_key 1) neighbour two_bodies false not_wrapped
