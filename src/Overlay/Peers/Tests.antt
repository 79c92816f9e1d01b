-- ===== src/Overlay/Peers/Tests.antt =====
-- The theorems on the peers of an overlay at concrete overlays.
use tiny_adnl.Prelude.{
  ℕ, ◌≡◌, ◌⊎◌, refl, true, false, none, some, ok, List, [], ◌∷◌, ◌==◌, arith, ℕ_discrete,
}
use tiny_adnl.Adnl.Peer.{SocketAddr}
use tiny_adnl.Adnl.PeersSet.Inv.{IsValid, with_capacity-IsValid}
use tiny_adnl.Adnl.PeersSet.Fifo.{elem}
use tiny_adnl.Adnl.PeersSet.Sample.{
  choose_first, choose_first-IsChoice, two_peers, two_peers-contains, two_peers-near,
}
use tiny_adnl.Adnl.Node.{Node, NodeOptions, new_node}
use tiny_adnl.Overlay.Defs.{OverlayNode, Overlay}
use tiny_adnl.Overlay.Peers.{
  newer, is_active_public_peer, remove_public_peer, verify_overlay_node, add_public_peer,
  is_valid_remote, process_get_random_peers,
}
use tiny_adnl.Overlay.Peers.Active.{reported, add_public_peer-active, remove_public_peer-neighbours}
use tiny_adnl.Overlay.Peers.Newest.{Occurs, HasAtLeast, process_get_random_peers-HasAtLeast}
use tiny_adnl.Overlay.Sample.{toy, lonely}

-- An overlay with two peers, which are its neighbours.
abbrev met : Overlay (List ℕ)
met = record lonely { known_peers = two_peers 8; neighbours = two_peers 4 }

not_ignored : elem ℕ_discrete 1 met.ignored_peers ≡ false
unfolding elem
not_ignored = refl

remove_public_peer-neighbours_example :
    (is_active_public_peer (remove_public_peer choose_first met 1).0 1 ≡ false)
    × ((remove_public_peer choose_first met 1).1 ≡ true)
    × ((remove_public_peer choose_first met 1).0.neighbours ≡ met.neighbours)
remove_public_peer-neighbours_example =
    remove_public_peer-neighbours choose_first met 1 choose_first-IsChoice not_ignored
      two_peers-contains (λ k known left. two_peers-near k known)

abbrev node_options : NodeOptions
node_options = record {
  query_min_timeout_ms = 500;
  query_default_timeout_ms = 5000;
  transfer_timeout_sec = 3;
  clock_tolerance_sec = 60;
  channel_reset_timeout_sec = 30;
  address_list_timeout_sec = 1000;
  packet_history_enabled = true;
  packet_signature_required = true;
  force_use_priority_channels = false;
  use_loopback_for_neighbours = false;
  version = none;
}

abbrev home : SocketAddr
home = record { octet0 = 10; octet1 = 0; octet2 = 0; octet3 = 1; port = 1000 }

abbrev away : SocketAddr
away = record { octet0 = 10; octet1 = 0; octet2 = 0; octet3 = 2; port = 2000 }

abbrev started : Node
started = new_node home node_options (λ id. id == 1005) 50

-- A node of the overlay with the key 6.
abbrev six : OverlayNode
six = record { node_id = 6; overlay = 77; version = 40; signature = 46 ∷ [] }

add_public_peer-active_example :
    ((peer_id : ℕ) × (o' : Overlay (List ℕ)) × ((add_public_peer toy lonely started none 7 away
          six).1
        ≡ ok (some peer_id))
      × ((add_public_peer toy lonely started none 7 away six).0.0 ≡ o')
      × (verify_overlay_node toy lonely.id six ≡ ok tt)
      × ((full : ℕ) × (toy.to_full six.node_id ≡ some full) × (peer_id ≡ toy.compute_short_id full))
      × (is_active_public_peer o' peer_id ≡ true)
      × (o'.nodes peer_id ≡ some (newer (lonely.nodes peer_id) six))
      × IsValid o'.known_peers)
    ⊎ ((reported (add_public_peer toy lonely started none 7 away six).1 ≡ none)
        × ((add_public_peer toy lonely started none 7 away six).0.0 ≡ lonely))
add_public_peer-active_example =
    add_public_peer-active toy lonely started none 7 away six
      (with_capacity-IsValid 8 (omega arith))

process_get_random_peers-HasAtLeast_example :
    let received =
      (process_get_random_peers toy choose_first lonely 50 (six ∷ [])).0.received_peers in
    ((node : OverlayNode)
      → Occurs node (six ∷ [])
      → is_valid_remote toy lonely node ≡ true
      → HasAtLeast received node.node_id node.version)
    × ((key version : ℕ)
        → HasAtLeast lonely.received_peers key version
        → HasAtLeast received key version)
    × ((key : ℕ) (w : OverlayNode)
        → received key ≡ some w
        → (lonely.received_peers key ≡ some w)
          ⊎ (Occurs w (six ∷ []) × (is_valid_remote toy lonely w ≡ true) × (w.node_id ≡ key)))
process_get_random_peers-HasAtLeast_example =
    process_get_random_peers-HasAtLeast toy choose_first lonely 50 (six ∷ [])
