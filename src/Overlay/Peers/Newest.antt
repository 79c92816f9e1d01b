-- ===== src/Overlay/Peers/Newest.antt =====
-- The nodes that the peers of an overlay tell of, src/overlay/overlay.rs.
use mathlib.Core.Option.{some-injective}
use tiny_adnl.Prelude.{
  ℕ, ◌≤◌, ◌≡◌, ◌⊎◌, ◌∙◌, refl, sym, ap, Bool, true, Option, none, some, List, [], ◌∷◌, ◌==◌, ltb,
  arith, Bool-cases, Option-cases, inl, inr,
}
use tiny_adnl.Adnl.PeersSet.Choose.{keep}
use tiny_adnl.Overlay.Defs.{OverlayNode, Overlay}
use tiny_adnl.Overlay.Broadcasts.{OverlayCrypto}
use tiny_adnl.Overlay.Peers.{
  Nodes, newer, put_node, receive_nodes, is_valid_remote, filter_nodes, process_get_random_peers,
}

-- A node is one of a list.
abbrev pub Occurs : OverlayNode → List OverlayNode → Type 0
Occurs node [] = ⊥
Occurs node (n ∷ rest) = (n ≡ node) ⊎ Occurs node rest

-- The map has a node with this key, of this version or a later one.
abbrev pub HasAtLeast : Nodes → ℕ → ℕ → Type 0
HasAtLeast nodes key version = (w : OverlayNode) × (nodes key ≡ some w) × (version ≤ w.version)

put_node-HasAtLeast :
    (nodes : Nodes) (node : OverlayNode)
    → HasAtLeast (put_node nodes node.node_id node) node.node_id node.version
unfolding put_node newer
put_node-HasAtLeast nodes node = elim (Option-cases (nodes node.node_id)) [
  | inl new ↦ (node, ground arith, omega arith)
  | inr (old, there) ↦ elim (Bool-cases (ltb old.version node.version)) [
    | inl less ↦ (node, ground arith, omega arith)
    | inr more ↦ (old, ground arith, ground arith)
  ]
]

put_node-keeps :
    (nodes : Nodes) (node : OverlayNode) (key version : ℕ)
    → HasAtLeast nodes key version
    → HasAtLeast (put_node nodes node.node_id node) key version
unfolding put_node newer
put_node-keeps nodes node key version (w, there, le) = elim (Bool-cases (key == node.node_id)) [
  | inr apart ↦ (w, ground arith, le)
  | inl same ↦ elim (Bool-cases (ltb w.version node.version)) [
    | inl less ↦ (node, ground arith, ground arith)
    | inr more ↦ (w, ground arith, le)
  ]
]

receive_nodes-keeps :
    (nodes : Nodes) (xs : List OverlayNode) (key version : ℕ)
    → HasAtLeast nodes key version
    → HasAtLeast (receive_nodes nodes xs) key version
unfolding receive_nodes
receive_nodes-keeps nodes [] key version h = h
receive_nodes-keeps nodes (x ∷ xs) key version h =
    receive_nodes-keeps (put_node nodes x.node_id x) xs key version
      (put_node-keeps nodes x key version h)

receive_nodes-HasAtLeast :
    (nodes : Nodes) (xs : List OverlayNode) (node : OverlayNode)
    → Occurs node xs
    → HasAtLeast (receive_nodes nodes xs) node.node_id node.version
unfolding receive_nodes
receive_nodes-HasAtLeast nodes [] node h = absurd h
receive_nodes-HasAtLeast nodes (x ∷ xs) node (inl e) =
    receive_nodes-keeps (put_node nodes x.node_id x) xs node.node_id node.version
      (rw e (put_node-HasAtLeast nodes node))
receive_nodes-HasAtLeast nodes (x ∷ xs) node (inr h) =
    receive_nodes-HasAtLeast (put_node nodes x.node_id x) xs node h

newer-cases :
    (old : Option OverlayNode) (node : OverlayNode)
    → (newer old node ≡ node) ⊎ (old ≡ some (newer old node))
unfolding newer
newer-cases none node = inl refl
newer-cases (some old) node = elim (Bool-cases (ltb old.version node.version)) [
  | inl less ↦ inl (rw less refl)
  | inr more ↦ inr (rw more refl)
]

-- Where a node of the map comes from.
receive_nodes-from :
    (nodes : Nodes) (xs : List OverlayNode) (key : ℕ) (w : OverlayNode)
    → receive_nodes nodes xs key ≡ some w
    → (nodes key ≡ some w) ⊎ (Occurs w xs × (w.node_id ≡ key))
unfolding receive_nodes put_node newer
receive_nodes-from nodes [] key w h = inl h
receive_nodes-from nodes (x ∷ xs) key w h =
    elim (receive_nodes-from (put_node nodes x.node_id x) xs key w h) [
      | inr (o, e) ↦ inr (inr o, e)
      | inl first ↦ elim (Bool-cases (key == x.node_id)) [
        | inr apart ↦ inl (ground arith)
        | inl same ↦
            let e : newer (nodes x.node_id) x ≡ w =
              some-injective _ _ (rw (put_node, same) at first) in
            elim (newer-cases (nodes x.node_id) x) [
              | inl p ↦ inr (inl (sym p ∙ e), ap (λ n. n.node_id) (sym e ∙ p) ∙ ground arith)
              | inr q ↦ inl (ground arith)
            ]
      ]
    ]

Occurs-keep :
    (p : OverlayNode → Bool) (xs : List OverlayNode) (node : OverlayNode)
    → Occurs node xs
    → p node ≡ true
    → Occurs node (keep p xs)
unfolding keep
Occurs-keep p [] node h t = absurd h
Occurs-keep p (x ∷ xs) node (inl e) t = rw (e, keep, t) (inl refl)
Occurs-keep p (x ∷ xs) node (inr h) t = elim (Bool-cases (p x)) [
  | inl yes_x ↦ rw yes_x (inr (Occurs-keep p xs node h t))
  | inr no_x ↦ rw no_x (Occurs-keep p xs node h t)
]

keep-Occurs :
    (p : OverlayNode → Bool) (xs : List OverlayNode) (node : OverlayNode)
    → Occurs node (keep p xs)
    → Occurs node xs × (p node ≡ true)
unfolding keep
keep-Occurs p [] node h = absurd h
keep-Occurs p (x ∷ xs) node h = elim (Bool-cases (p x)) [
  | inr no_x ↦ let (o, t) = keep-Occurs p xs node (rw (keep, no_x) at h) in (inr o, t)
  | inl yes_x ↦ elim (rw (keep, yes_x) at h) [
    | inl e ↦ (inl e, ap p (sym e) ∙ yes_x)
    | inr later ↦ let (o, t) = keep-Occurs p xs node later in (inr o, t)
  ]
]

-- After a query of `process_get_random_peers`, the map of received peers has each valid node of the
-- query, in its version or a later one; it has each node that it had, in that version or a later
-- one; and what it has is what it had, or a valid node of the query, under the node's own id. Valid
-- is a node of another key than the overlay's own, with the overlay's id and a right signature.
pub process_get_random_peers-HasAtLeast :
    (c : OverlayCrypto) (choose : List ℕ → ℕ → List ℕ) {D : Type 0} (o : Overlay D) (now : ℕ)
    (query : List OverlayNode)
    → let received = (process_get_random_peers c choose o now query).0.received_peers in
      ((node : OverlayNode)
        → Occurs node query
        → is_valid_remote c o node ≡ true
        → HasAtLeast received node.node_id node.version)
      × ((key version : ℕ)
          → HasAtLeast o.received_peers key version
          → HasAtLeast received key version)
      × ((key : ℕ) (w : OverlayNode)
          → received key ≡ some w
          → (o.received_peers key ≡ some w)
            ⊎ (Occurs w query × (is_valid_remote c o w ≡ true) × (w.node_id ≡ key)))
unfolding process_get_random_peers filter_nodes
process_get_random_peers-HasAtLeast c choose o now query = (
  λ node h valid.
      receive_nodes-HasAtLeast o.received_peers (keep (is_valid_remote c o) query) node
        (Occurs-keep (is_valid_remote c o) query node h valid),
  λ key version h.
      receive_nodes-keeps o.received_peers (keep (is_valid_remote c o) query) key version h,
  λ key w h. elim (receive_nodes-from o.received_peers (keep (is_valid_remote c o) query) key w h) [
    | inl before ↦ inl before
    | inr (here, e) ↦
        let (asked, valid) = keep-Occurs (is_valid_remote c o) query w here in inr (asked, valid, e)
  ],
)
