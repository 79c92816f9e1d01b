-- ===== src/Adnl/Receiver/Tests.antt =====
-- `check_packet` of src/adnl/node/receiver.rs at a concrete node.
use tiny_adnl.Prelude.{
  ◌≡◌, ◌==◌, refl, true, false, none, some, ok, [], ◌∷◌, replicate, if◌then◌else◌, arith,
}
use tiny_adnl.Util.PacketsHistory.{
  PacketsHistory, deliver_packet, deliver_recv, deliver_in_window, publish,
}
use tiny_adnl.Prelude.Bytes
use tiny_adnl.Util.PacketsHistory.Window.{receiver}
use tiny_adnl.Adnl.Packet.{IncomingPacketContents}
use tiny_adnl.Adnl.Peer.{Peer, history}
use tiny_adnl.Adnl.Node.{Node, Peers, put_peer}
use tiny_adnl.Adnl.Receiver.{
  Identities, check_packet, find_source, find_peer, is_some, verify, check_state, check_reinit,
  check_history, check_confirm, set_history,
}
use tiny_adnl.Adnl.Receiver.Accepted.{Accepted}
use tiny_adnl.Adnl.Receiver.Unsigned.{check_packet-unsigned}
use tiny_adnl.Adnl.Receiver.Repeated.{check_packet-repeated}

abbrev ids : Identities
ids = record {
  verify_raw = λ key message signature. false;
  to_full = λ key. some key;
  compute_short_id = λ full_id. full_id;
}

abbrev sends : PacketsHistory
sends = record { mask = none; seqno = 5 }

abbrev peer_of : PacketsHistory → Peer
peer_of h = record {
  id = 20;
  addr = 0;
  channel_key = 7;
  receiver_state = record {
    ordinary_history = h;
    priority_history = receiver (replicate 8 0) 0;
    reinit_date = 50;
  };
  sender_state = record { ordinary_history = sends; priority_history = sends; reinit_date = 0 };
}

abbrev fresh_peer : Peer
fresh_peer = peer_of (receiver (replicate 8 0) 0)

abbrev table : Peer → Peers
table peer p = if p == 2 then some peer else none

abbrev host : Node
host = record {
  socket_addr = record { octet0 = 127; octet1 = 0; octet2 = 0; octet3 = 1; port = 1000 };
  options = record {
    query_min_timeout_ms = 500;
    query_default_timeout_ms = 5000;
    transfer_timeout_sec = 3;
    clock_tolerance_sec = 60;
    channel_reset_timeout_sec = 30;
    address_list_timeout_sec = 1000;
    packet_history_enabled = true;
    packet_signature_required = true;
    force_use_priority_channels = true;
    use_loopback_for_neighbours = false;
    version = none;
  };
  peers = λ l. if l == 1 then some (table fresh_peer) else none;
  store = λ _. none;
  next_place = 1;
  channels_by_id = λ _. none;
  channels_by_peers = λ p. if p == 2 then some 0 else none;
  start_time = 50;
}

abbrev numbered : IncomingPacketContents
numbered = record {
  from = none;
  from_short = none;
  address = none;
  seqno = some 3;
  confirm_seqno = some 5;
  reinit_dates = none;
  signature = none;
}

abbrev after : Node
after =
    put_peer host 1 (table fresh_peer) 2
      (some (peer_of (receiver (0 ∷ 0 ∷ 0 ∷ 0 ∷ 8 ∷ replicate 3 0) 3)))

deliver :
    deliver_packet (receiver (replicate 8 0) 0) 3
    ≡ some (true, receiver (0 ∷ 0 ∷ 0 ∷ 0 ∷ 8 ∷ replicate 3 0) 3)
unfolding deliver_packet deliver_recv deliver_in_window publish Bytes.test_bit Bytes.set_bit
deliver = refl

accepts : check_packet ids host none 7 100 [] numbered 1 (some 2) false ≡ some (after, ok (some 2))
unfolding check_packet find_source find_peer is_some verify check_state check_reinit check_history
    check_confirm set_history history deliver_packet deliver_recv deliver_in_window publish
accepts = ground (arith, deliver)

is_first : history fresh_peer.receiver_state false ≡ receiver (replicate 8 0) 0
unfolding history
is_first = refl

check_packet-repeated_example :
    (n'' : Node) × (check_packet ids after none 7 101 [] numbered 1 (some 2) false
      ≡ some (n'', ok none))
check_packet-repeated_example =
    check_packet-repeated ids host after none none 7 7 100 101 [] numbered 1 2 false
      (table fresh_peer) fresh_peer (replicate 8 0) 0 3 refl refl refl is_first refl (omega arith)
      refl refl accepts

abbrev unsigned : IncomingPacketContents
unsigned = record numbered { from_short = some 2; seqno = none; confirm_seqno = none }

check_packet-unsigned_example :
    check_packet ids host none 7 100 (1 ∷ []) unsigned 1 none false
    ≡ some (put_peer host 1 (table fresh_peer) 2 (some fresh_peer), ok (some 2))
check_packet-unsigned_example =
    check_packet-unsigned ids host none 7 100 (1 ∷ []) unsigned 1 2 false (table fresh_peer)
      fresh_peer refl refl refl refl refl refl refl refl
