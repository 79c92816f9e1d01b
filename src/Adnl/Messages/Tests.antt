-- ===== src/Adnl/Messages/Tests.antt =====
-- The theorem on the messages of src/adnl/node/receiver.rs at a concrete node.
use tiny_adnl.Prelude.{◌+◌, ◌*◌, true, false, none, some, [], ◌∷◌, ◌==◌, length, replicate}
use tiny_adnl.Adnl.Peer.{SocketAddr}
use tiny_adnl.Adnl.Channel.{Keys}
use tiny_adnl.Adnl.Node.{NodeOptions, new_node, add_peer, adnl_packet}
use tiny_adnl.Adnl.Node.Linked.{add_peer-Linked}
use tiny_adnl.Adnl.Node.Reach.{new_node-Linked}
use tiny_adnl.Adnl.Queries.{empty_cache, add_query}
use tiny_adnl.Adnl.Queries.Linked.{empty_cache-Linked, add_query-Linked}
use tiny_adnl.Adnl.Sender.Messages.{create_message}
use tiny_adnl.Adnl.Messages.{MessageContext, NodeStores, process_message}
use tiny_adnl.Adnl.Messages.Intact.{Intact, IntactAfter, process_message-IntactAfter}

abbrev keys : Keys
keys = record {
  compute_shared_secret = λ key public. (key + public) ∷ 3 ∷ replicate 30 1;
  compute_channel_id = λ secret. secret;
}

abbrev options : NodeOptions
options = record {
  query_min_timeout_ms = 500;
  query_default_timeout_ms = 5000;
  transfer_timeout_sec = 3;
  clock_tolerance_sec = 60;
  channel_reset_timeout_sec = 30;
  address_list_timeout_sec = 1000;
  packet_history_enabled = true;
  packet_signature_required = true;
  force_use_priority_channels = false;
  use_loopback_for_neighbours = false;
  version = none;
}

abbrev home : SocketAddr
home = record { octet0 = 10; octet1 = 0; octet2 = 0; octet3 = 1; port = 1000 }

abbrev away : SocketAddr
away = record { octet0 = 10; octet1 = 0; octet2 = 0; octet3 = 2; port = 2000 }

abbrev context : MessageContext
context = record {
  keys = keys;
  write = λ message. 9 ∷ [];
  parse = λ bytes. none;
  digest = length;
  is_key = λ key. true;
  local_keys = some;
  full_id = λ key. key * 2;
  public_key = λ key. key + 1;
  custom = λ bytes. some true;
  query = λ bytes. some none;
}

-- A node with a peer and a query that waits.
abbrev stores : NodeStores
stores = record {
  node = (add_peer (new_node home options (λ id. id == 1) 50) none 7 adnl_packet 1 2 away 20).0;
  transfers = λ hash. none;
  queries = (add_query empty_cache 3).0;
  sent = [];
}

stores-Intact : Intact stores
stores-Intact = record {
  channels =
      add_peer-Linked (new_node home options (λ id. id == 1) 50) none 7 adnl_packet 1 2 away 20
        (new_node-Linked keys home options (λ id. id == 1) 50);
  queries = add_query-Linked empty_cache 3 empty_cache-Linked;
}

process_message-IntactAfter_example :
    IntactAfter (process_message context 100 1 2 5 stores (create_message 8 60) false)
process_message-IntactAfter_example =
    process_message-IntactAfter context 100 1 2 5 stores (create_message 8 60) false stores-Intact
