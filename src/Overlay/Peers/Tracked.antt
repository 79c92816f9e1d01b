-- ===== src/Overlay/Peers/Tracked.antt =====
-- The peers of an overlay, src/overlay/overlay.rs, are apart from its broadcasts.
use tiny_adnl.Prelude.{ℕ, ◌≡◌, refl, none, List, [], ◌∷◌, Bool-cases, inl, inr, ℕ_discrete}
use tiny_adnl.Adnl.PeersSet.{contains}
use tiny_adnl.Adnl.PeersSet.Fifo.{elem}
use tiny_adnl.Overlay.Defs.{OverlayOptions, OverlayNode, Overlay}
use tiny_adnl.Overlay.Peers.{update_neighbours, insert_public_peer, remove_public_peer, new_overlay}
use tiny_adnl.Overlay.Gc.Tracked.{Tracked}

module _ {D : Type 0} where
  pub insert_public_peer-owned :
      (o : Overlay D) (peer_id : ℕ) (node : OverlayNode)
      → (insert_public_peer o peer_id node).owned_broadcasts ≡ o.owned_broadcasts
  unfolding insert_public_peer
  insert_public_peer-owned o peer_id node = refl

  pub insert_public_peer-Tracked :
      (o : Overlay D) (peer_id : ℕ) (node : OverlayNode)
      → Tracked o
      → Tracked (insert_public_peer o peer_id node)
  unfolding insert_public_peer
  insert_public_peer-Tracked o peer_id node t = t

  module _ (choose : List ℕ → ℕ → List ℕ) where
    pub remove_public_peer-Tracked :
        (o : Overlay D) (peer_id : ℕ) → Tracked o → Tracked (remove_public_peer choose o peer_id).0
    unfolding remove_public_peer update_neighbours
    remove_public_peer-Tracked o peer_id t =
        elim (Bool-cases (elem ℕ_discrete peer_id o.ignored_peers)) [
          | inl known ↦ rw known t
          | inr new ↦ elim (Bool-cases (contains o.neighbours peer_id)) [
            | inl near ↦ rw (new, near) t
            | inr far ↦ rw (new, far) t
          ]
        ]

    pub remove_public_peer-owned :
        (o : Overlay D) (peer_id : ℕ)
        → (remove_public_peer choose o peer_id).0.owned_broadcasts ≡ o.owned_broadcasts
    unfolding remove_public_peer update_neighbours
    remove_public_peer-owned o peer_id =
        elim (Bool-cases (elem ℕ_discrete peer_id o.ignored_peers)) [
          | inl known ↦ rw known refl
          | inr new ↦ elim (Bool-cases (contains o.neighbours peer_id)) [
            | inl near ↦ rw (new, near) refl
            | inr far ↦ rw (new, far) refl
          ]
        ]

    pub new_overlay-owned :
        (node_key id : ℕ) (peers : List ℕ) (options : OverlayOptions) (i : ℕ)
        → (new_overlay {D = D} choose node_key id peers options).owned_broadcasts i ≡ none
    unfolding new_overlay update_neighbours
    new_overlay-owned node_key id [] options i = refl
    new_overlay-owned node_key id (p ∷ ps) options i = refl

    pub new_overlay-Tracked :
        (node_key id : ℕ) (peers : List ℕ) (options : OverlayOptions)
        → Tracked {D = D} (new_overlay choose node_key id peers options)
    unfolding new_overlay update_neighbours
    new_overlay-Tracked node_key id [] options = record { counted = refl; once = λ i. refl }
    new_overlay-Tracked node_key id (p ∷ ps) options = record { counted = refl; once = λ i. refl }
