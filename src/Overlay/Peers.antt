-- ===== src/Overlay/Peers.antt =====
-- The peers of an overlay, src/overlay/overlay.rs, and the check of a node, src/overlay/overlay_id.rs.
-- A map of nodes is a function.
pub mod Tracked
pub mod Active
pub mod Newest
mod Tests
use tiny_adnl.Prelude.{
  ℕ, Bool, true, false, Option, none, some, Result, ok, err, List, [], ◌∷◌, ◌++◌, map,
  if◌then◌else◌, ltb, ◌==◌, not, ◌&&◌, ℕ_discrete,
}
use tiny_adnl.Adnl.Peer.{SocketAddr}
use tiny_adnl.Adnl.PeersSet.{
  PeersSetState, with_capacity, with_peers_and_capacity, is_full, contains, insert,
}
use tiny_adnl.Adnl.PeersSet.Fifo.{elem}
use tiny_adnl.Adnl.PeersSet.Choose.{keep, randomly_fill_from}
use tiny_adnl.Adnl.Node.{Node, NodeError, NewPeerContext, public_overlay, add_peer}
use tiny_adnl.Overlay.Defs.{OverlayOptions, OverlayError, OverlayNode, Overlay}
use tiny_adnl.Overlay.Broadcasts.{OverlayCrypto}

pub data PeerError : Type 0 where
  of_overlay : OverlayError → PeerError
  of_node : NodeError → PeerError

abbrev pub Nodes : Type 0
Nodes = ℕ → Option OverlayNode

-- `Entry::Occupied` keeps the node with the higher version.
pub newer : Option OverlayNode → OverlayNode → OverlayNode
newer none node = node
newer (some old) node = if ltb old.version node.version then node else old

pub put_node : Nodes → ℕ → OverlayNode → Nodes
put_node nodes key node k = if k == key then some (newer (nodes key) node) else nodes k

-- The loop of `process_get_random_peers`.
pub receive_nodes : Nodes → List OverlayNode → Nodes
receive_nodes received [] = received
receive_nodes received (node ∷ rest) = receive_nodes (put_node received node.node_id node) rest

module _ {D : Type 0} where
  pub is_known_peer : Overlay D → ℕ → Bool
  is_known_peer o peer_id = contains o.known_peers peer_id

  pub is_active_public_peer : Overlay D → ℕ → Bool
  is_active_public_peer o peer_id =
      contains o.known_peers peer_id && not (elem ℕ_discrete peer_id o.ignored_peers)

  pub take_new_peers : Overlay D → Overlay D × Nodes
  take_new_peers o = (record o { received_peers = λ _. none }, o.received_peers)

  pub insert_public_peer : Overlay D → ℕ → OverlayNode → Overlay D
  insert_public_peer o peer_id node = record o {
    ignored_peers = keep (λ k. not (k == peer_id)) o.ignored_peers;
    known_peers = (insert ℕ_discrete o.known_peers peer_id).0;
    neighbours =
        if is_full o.neighbours then o.neighbours else (insert ℕ_discrete o.neighbours peer_id).0;
    nodes = put_node o.nodes peer_id node;
  }

  module _ (choose : List ℕ → ℕ → List ℕ) where
    pub update_neighbours : Overlay D → ℕ → Overlay D
    update_neighbours o amount = record o {
      neighbours =
          randomly_fill_from ℕ_discrete choose false o.neighbours o.known_peers amount
            (some o.ignored_peers);
    }

    pub write_cached_peers : Overlay D → ℕ → PeersSetState ℕ → PeersSetState ℕ
    write_cached_peers o amount dst =
        randomly_fill_from ℕ_discrete choose false dst o.known_peers amount (some o.ignored_peers)

    pub remove_public_peer : Overlay D → ℕ → Overlay D × Bool
    remove_public_peer o peer_id =
        let o' : Overlay D = record o { ignored_peers = peer_id ∷ o.ignored_peers } in
        if elem ℕ_discrete peer_id o.ignored_peers then (o, false) else (
          if contains o.neighbours peer_id
              then update_neighbours o' o.options.max_neighbours
              else o',
          true,
        )

    -- `Overlay::new`, without the task that it starts.
    unfoldable pub new_overlay : ℕ → ℕ → List ℕ → OverlayOptions → Overlay D
    new_overlay node_key id peers options =
        let o : Overlay D = record {
          id = id;
          node_key = node_key;
          options = options;
          owned_broadcasts = λ _. none;
          finished_broadcasts = [];
          finished_broadcast_count = 0;
          received_broadcasts = [];
          received_peers = λ _. none;
          nodes = λ _. none;
          ignored_peers = [];
          known_peers = with_peers_and_capacity ℕ_discrete peers 65536;
          neighbours = with_capacity options.max_neighbours;
          cleanups = [];
          gc_tasks = [];
        } in
        elim peers [ [] ↦ o | _ ∷ _ ↦ update_neighbours o options.max_neighbours ]

-- `if let Some(node) = self.nodes.get(peer_id)`, for each peer
pub known_nodes : Nodes → List ℕ → List OverlayNode
known_nodes nodes [] = []
known_nodes nodes (id ∷ rest) = elim (nodes id) [
  | none ↦ known_nodes nodes rest
  | some node ↦ node ∷ known_nodes nodes rest
]

module _ (c : OverlayCrypto) where
  pub verify_overlay_node : ℕ → OverlayNode → Result {0, 0} OverlayError Unit
  verify_overlay_node id node =
      if not (node.overlay == id)
      then err OverlayError.overlay_id_mismatch
      else elim (c.to_full node.node_id) [
        | none ↦ err OverlayError.invalid_public_key
        | some full ↦
            if c.verify_node full
              (record {
                short_id = c.compute_short_id full;
                overlay_id = node.overlay;
                node_version = node.version;
              })
              node.signature
            then ok tt
            else err OverlayError.bad_signature
      ]

  -- `exchange_random_peers_ext`: the ids of an answer's nodes that the filter does not know.
  pub new_peers : (ℕ → Bool) → List OverlayNode → List ℕ
  new_peers exists [] = []
  new_peers exists (node ∷ rest) = elim (c.to_full node.node_id) [
    | none ↦ new_peers exists rest
    | some full ↦
        if exists (c.compute_short_id full)
        then new_peers exists rest
        else c.compute_short_id full ∷ new_peers exists rest
  ]

  module _ {D : Type 0} where
    pub sign_local_node : Overlay D → ℕ → OverlayNode
    sign_local_node o now =
        let full = c.full_id o.node_key in
        record {
          node_id = c.as_tl full;
          overlay = o.id;
          version = now;
          signature = c.sign_node o.node_key (record {
            short_id = c.compute_short_id full;
            overlay_id = o.id;
            node_version = now;
          });
        }

    -- The test of `filter_nodes`.
    pub is_valid_remote : Overlay D → OverlayNode → Bool
    is_valid_remote o node = elim (c.ed25519_key node.node_id) [
      | none ↦ false
      | some key ↦
          if key == c.key_bytes (c.full_id o.node_key)
          then false
          else elim (verify_overlay_node o.id node) [ ok _ ↦ true | err _ ↦ false ]
    ]

    pub filter_nodes : Overlay D → List OverlayNode → List OverlayNode
    filter_nodes o nodes = keep (is_valid_remote o) nodes

    pub exchanged_peers : Overlay D → (ℕ → Bool) → List OverlayNode → List ℕ
    exchanged_peers o exists answer = new_peers exists (filter_nodes o answer)

    pub add_public_peer :
        Overlay D
        → Node
        → Option (NewPeerContext → SocketAddr → ℕ → Bool)
        → ℕ
        → SocketAddr
        → OverlayNode
        → (Overlay D × Node) × Result PeerError (Option ℕ)
    add_public_peer o n filter channel_key addr node = elim (verify_overlay_node o.id node) [
      | err _ ↦ ((o, n), ok none)
      | ok _ ↦ elim (c.to_full node.node_id) [
        | none ↦ ((o, n), err (of_overlay OverlayError.invalid_public_key))
        | some full ↦
            let peer_id = c.compute_short_id full in
            let (n', outcome) =
              add_peer n filter channel_key public_overlay
                (c.compute_short_id (c.full_id o.node_key)) peer_id addr full in
            elim outcome [
              | err x ↦ ((o, n'), err (of_node x))
              | ok is_new ↦
                  if is_new
                  then ((insert_public_peer o peer_id node, n'), ok (some peer_id))
                  else ((o, n'), ok none)
            ]
      ]
    ]

    -- The keys of the channels that may be made are those of the calls of `add_peer`, in order.
    pub add_public_peers :
        Overlay D
        → Node
        → Option (NewPeerContext → SocketAddr → ℕ → Bool)
        → List (ℕ × (SocketAddr × OverlayNode))
        → (Overlay D × Node) × Result PeerError (List ℕ)
    add_public_peers o n filter [] = ((o, n), ok [])
    add_public_peers o n filter ((channel_key, (addr, node)) ∷ rest) =
        let (after, outcome) = add_public_peer o n filter channel_key addr node in
        let (last, ids) = add_public_peers after.0 after.1 filter rest in
        elim outcome [
          | err x ↦ (after, err x)
          | ok added ↦ elim ids [
            | err x ↦ (last, err x)
            | ok more ↦ (last, ok (elim added [ none ↦ more | some id ↦ id ∷ more ]))
          ]
        ]

    module _ (choose : List ℕ → ℕ → List ℕ) where
      pub prepare_random_peers : Overlay D → ℕ → List OverlayNode
      prepare_random_peers o now =
          let peers =
            randomly_fill_from ℕ_discrete choose false (with_capacity 4) o.neighbours 4 none in
          sign_local_node o now ∷ known_nodes o.nodes peers.index

      pub process_get_random_peers : Overlay D → ℕ → List OverlayNode → Overlay D × List OverlayNode
      process_get_random_peers o now query =
          let o' : Overlay D = record o {
            received_peers = receive_nodes o.received_peers (filter_nodes o query);
          } in
          (o', prepare_random_peers o' now)
