-- ===== src/Overlay/Peers/Active.antt =====
-- Peers that come to an overlay and go, src/overlay/overlay.rs.
use tiny_adnl.Prelude.{
  ℕ, ◌≡◌, ◌⊎◌, refl, Bool, true, false, Option, none, some, Result, ok, err, List, ◌∷◌, not, ◌==◌,
  arith, Option-cases, inl, inr, ℕ_discrete,
}
use tiny_adnl.Adnl.Peer.{SocketAddr}
use tiny_adnl.Adnl.PeersSet.{contains}
use tiny_adnl.Adnl.PeersSet.Inv.{IsValid, insert-IsValid}
use tiny_adnl.Adnl.PeersSet.Members.{insert-contains, randomly_fill_from_contained, elem-keep_out}
use tiny_adnl.Adnl.PeersSet.Fifo.{elem}
use tiny_adnl.Adnl.PeersSet.Choose.{IsChoice, keep}
use tiny_adnl.Adnl.Node.{Node, NewPeerContext, public_overlay, add_peer}
use tiny_adnl.Adnl.Receiver.Stages.{Result-cases}
use tiny_adnl.Overlay.Defs.{OverlayNode, Overlay}
use tiny_adnl.Overlay.Broadcasts.{OverlayCrypto}
use tiny_adnl.Overlay.Peers.{
  PeerError, newer, put_node, is_active_public_peer, insert_public_peer, update_neighbours,
  remove_public_peer, verify_overlay_node, add_public_peer,
}

module _ {D : Type 0} where
  insert_public_peer-active :
      (o : Overlay D) (peer_id : ℕ) (node : OverlayNode)
      → IsValid o.known_peers
      → is_active_public_peer (insert_public_peer o peer_id node) peer_id ≡ true
  unfolding is_active_public_peer insert_public_peer
  insert_public_peer-active o peer_id node v =
      let out : elem ℕ_discrete peer_id (keep (λ k. not (k == peer_id)) o.ignored_peers) ≡ false =
        elem-keep_out ℕ_discrete peer_id (λ k. not (k == peer_id)) o.ignored_peers (ground arith) in
      rw (insert-contains ℕ_discrete o.known_peers peer_id v, out) refl

  module _ (choose : List ℕ → ℕ → List ℕ) where
    -- A peer that is removed is active no longer, and stays among the neighbours, to which
    -- broadcasts are sent, where each known peer that is not ignored is a neighbour already: then
    -- the neighbours stay as they were.
    pub remove_public_peer-neighbours :
        (o : Overlay D) (peer_id : ℕ)
        → IsChoice ℕ_discrete choose
        → elem ℕ_discrete peer_id o.ignored_peers ≡ false
        → contains o.neighbours peer_id ≡ true
        → ((k : ℕ)
            → elem ℕ_discrete k o.known_peers.index ≡ true
            → elem ℕ_discrete k (peer_id ∷ o.ignored_peers) ≡ false
            → contains o.neighbours k ≡ true)
        → (is_active_public_peer (remove_public_peer choose o peer_id).0 peer_id ≡ false)
          × ((remove_public_peer choose o peer_id).1 ≡ true)
          × ((remove_public_peer choose o peer_id).0.neighbours ≡ o.neighbours)
    unfolding is_active_public_peer remove_public_peer update_neighbours elem
    remove_public_peer-neighbours o peer_id c new near all =
        let same =
          randomly_fill_from_contained ℕ_discrete choose o.neighbours o.known_peers
            o.options.max_neighbours (peer_id ∷ o.ignored_peers) c all in
        (rw (new, near) (ground arith), rw new refl, rw (new, near) same)

-- The peer that is reported as added.
abbrev pub reported : Result PeerError (Option ℕ) → Option ℕ
reported (ok added) = added
reported (err x) = none

module _ (c : OverlayCrypto) {D : Type 0} where
  -- Where the set of known peers is valid, a node that `add_public_peer` reports as added has the
  -- overlay's id and a right signature, and is reported by the short id of its key; it is an active
  -- peer of the overlay then, its entry is the newer one of the node and the entry before, and the
  -- set of known peers is still valid. Else no peer is reported, and the overlay is as it was.
  pub add_public_peer-active :
      (o : Overlay D) (n : Node) (filter : Option (NewPeerContext → SocketAddr → ℕ → Bool))
      (channel_key : ℕ) (addr : SocketAddr) (node : OverlayNode)
      → IsValid o.known_peers
      → ((peer_id : ℕ) × (o' : Overlay D) × ((add_public_peer c o n filter channel_key addr node).1
            ≡ ok (some peer_id))
          × ((add_public_peer c o n filter channel_key addr node).0.0 ≡ o')
          × (verify_overlay_node c o.id node ≡ ok tt)
          × ((full : ℕ) × (c.to_full node.node_id ≡ some full)
              × (peer_id ≡ c.compute_short_id full))
          × (is_active_public_peer o' peer_id ≡ true)
          × (o'.nodes peer_id ≡ some (newer (o.nodes peer_id) node))
          × IsValid o'.known_peers)
        ⊎ ((reported (add_public_peer c o n filter channel_key addr node).1 ≡ none)
            × ((add_public_peer c o n filter channel_key addr node).0.0 ≡ o))
  unfolding add_public_peer insert_public_peer put_node
  add_public_peer-active o n filter channel_key addr node v =
      elim (Result-cases (verify_overlay_node c o.id node)) [
        | inl (x, bad) ↦ inr (rw (add_public_peer, bad) (refl, refl))
        | inr (u, good) ↦ elim (Option-cases (c.to_full node.node_id)) [
          | inl unread ↦ inr (rw (add_public_peer, good, unread) (refl, refl))
          | inr (full, key) ↦
              let peer_id = c.compute_short_id full in
              let local_id = c.compute_short_id (c.full_id o.node_key) in
              elim (Result-cases
                (add_peer n filter channel_key public_overlay local_id peer_id addr full).1) [
                  | inl (x, failed) ↦ inr (rw (add_public_peer, good, key, failed) (refl, refl))
                  | inr (false, old) ↦ inr (rw (add_public_peer, good, key, old) (refl, refl))
                  | inr (true, new) ↦ inl (
                    peer_id,
                    insert_public_peer o peer_id node,
                    rw (add_public_peer, good, key, new) refl,
                    rw (add_public_peer, good, key, new) refl,
                    good,
                    (full, key, refl),
                    insert_public_peer-active o peer_id node v,
                    ground arith,
                    insert-IsValid ℕ_discrete peer_id v,
                  )
                ]
        ]
      ]
