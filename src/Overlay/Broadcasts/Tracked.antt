-- ===== src/Overlay/Broadcasts/Tracked.antt =====
-- A broadcast in one message, src/overlay/overlay.rs, keeps account of the tasks; what
-- `create_broadcast` does.
use tiny_adnl.Prelude.{
  ℕ, ◌≡◌, refl, true, false, Option, none, some, List, arith, Bool-cases, Option-cases, inl, inr,
  ◌⊎◌, if◌then◌else◌,
}
use tiny_adnl.Rldp.Compression.{Zstd}
use tiny_adnl.Overlay.Defs.{OverlayBroadcast, OwnedBroadcast, other, Overlay, put_broadcast}
use tiny_adnl.Overlay.Broadcasts.{
  OverlayCrypto, create_broadcast, spawn_broadcast_gc_task, is_broadcast_outdated,
  receive_broadcast, signed_data, make_broadcast_to_sign, has_any_sender,
}
use tiny_adnl.Overlay.Gc.Tracked.{Tracked, Tracked-sleeping}

module _ {D : Type 0} where
  pub create_broadcast_new :
      (o : Overlay D) (id : ℕ)
      → o.owned_broadcasts id ≡ none
      → create_broadcast o id
        ≡ (record o { owned_broadcasts = put_broadcast o.owned_broadcasts id (some other) }, true)
  unfolding create_broadcast
  create_broadcast_new o id new = rw (new, create_broadcast) refl

  pub create_broadcast_known :
      (o : Overlay D) (id : ℕ) {b : OwnedBroadcast D}
      → o.owned_broadcasts id ≡ some b
      → create_broadcast o id ≡ (o, false)
  unfolding create_broadcast
  create_broadcast_known o id known = rw (known, create_broadcast) refl

  create_broadcast-cases :
      (o : Overlay D) (id : ℕ)
      → ((create_broadcast o id).1 ≡ false)
        ⊎ ((o.owned_broadcasts id ≡ none)
            × (create_broadcast o id ≡ (
              record o { owned_broadcasts = put_broadcast o.owned_broadcasts id (some other) },
              true,
            )))
  create_broadcast-cases o id = elim (Option-cases (o.owned_broadcasts id)) [
    | inr (b, known) ↦ inl (rw (create_broadcast_known o id known) refl)
    | inl new ↦ inr (new, create_broadcast_new o id new)
  ]

  pub create_broadcast-Tracked :
      (o : Overlay D) (id : ℕ)
      → Tracked o
      → (create_broadcast o id).1 ≡ true
      → Tracked (spawn_broadcast_gc_task (create_broadcast o id).0 id)
  unfolding spawn_broadcast_gc_task
  create_broadcast-Tracked o id t is_new = elim (create_broadcast-cases o id) [
    | inl old ↦ absurd (ground arith)
    | inr (new, e) ↦ rw e (Tracked-sleeping o t id other new)
  ]

  module _ (c : OverlayCrypto) (z : Zstd) (choose : List ℕ → ℕ → List ℕ) where
    pub receive_broadcast-Tracked :
        (o : Overlay D) (now peer_id : ℕ) (b : OverlayBroadcast)
        → Tracked o
        → Tracked (receive_broadcast c z choose o now peer_id b).0
    unfolding receive_broadcast spawn_broadcast_gc_task
    receive_broadcast-Tracked o now peer_id b t =
        elim (Bool-cases (is_broadcast_outdated o now b.date)) [
          | inl late ↦ rw late t
          | inr early ↦ elim (Option-cases (c.to_full b.src)) [
            | inl bad ↦ rw (early, bad) t
            | inr (node_id, good) ↦
                let source : Option ℕ =
                  if has_any_sender c b.flags then none else some (c.compute_short_id node_id) in
                elim (Option-cases (signed_data c z choose node_id source b)) [
                  | inl forged ↦ rw (early, good, forged) t
                  | inr (bytes, signed) ↦
                      let id = c.hash_to_sign (make_broadcast_to_sign c bytes b.date source) in
                      elim (create_broadcast-cases o id) [
                        | inl old ↦ rw (early, good, signed, old) t
                        | inr (new, e) ↦
                            rw (early, good, signed, e) (Tracked-sleeping o t id other new)
                      ]
                ]
          ]
        ]
