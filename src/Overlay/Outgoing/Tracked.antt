-- ===== src/Overlay/Outgoing/Tracked.antt =====
-- What an overlay sends, src/overlay/overlay.rs, keeps account of the tasks.
use tiny_adnl.Prelude.{ℕ, ◌≡◌, ◌⊎◌, refl, none, List, Bool-cases, inl, inr}
use tiny_adnl.Rldp.Compression.{Zstd}
use tiny_adnl.Rldp.Outgoing.{EncoderEngine}
use tiny_adnl.Overlay.Defs.{Overlay}
use tiny_adnl.Overlay.Broadcasts.{
  OverlayCrypto, create_broadcast, make_broadcast_to_sign, spawn_broadcast_gc_task,
}
use tiny_adnl.Overlay.Broadcasts.Tracked.{create_broadcast-Tracked}
use tiny_adnl.Overlay.Outgoing.{BroadcastTarget, send_broadcast, send_fec_broadcast}
use tiny_adnl.Overlay.Gc.Tracked.{Tracked}

module _ (c : OverlayCrypto) (z : Zstd) (choose : List ℕ → ℕ → List ℕ) {D : Type 0} where
  pub send_broadcast-Tracked :
      (o : Overlay D) (now : ℕ) (bytes : List ℕ) (key : ℕ) (target : BroadcastTarget)
      → Tracked o
      → Tracked (send_broadcast c z choose o now bytes key target).0
  unfolding send_broadcast
  send_broadcast-Tracked o now bytes key target t =
      let id = c.hash_to_sign (make_broadcast_to_sign c bytes now none) in
      elim (Bool-cases (create_broadcast o id).1) [
        | inl is_new ↦ rw is_new (create_broadcast-Tracked o id t is_new)
        | inr old ↦ rw old t
      ]

  -- What is known then are the broadcasts that `create_broadcast` leaves.
  pub send_fec_broadcast-owned :
      {E : Type 0} (e : EncoderEngine E) (o : Overlay D) (bytes : List ℕ) (target : BroadcastTarget)
      → ((send_fec_broadcast c z choose e o bytes target).0.owned_broadcasts ≡ o.owned_broadcasts)
        ⊎ ((send_fec_broadcast c z choose e o bytes target).0.owned_broadcasts
            ≡ (create_broadcast o (c.sha256 bytes)).0.owned_broadcasts)
  unfolding send_fec_broadcast spawn_broadcast_gc_task
  send_fec_broadcast-owned e o bytes target =
      elim (Bool-cases (create_broadcast o (c.sha256 bytes)).1) [
        | inl is_new ↦ inr (rw is_new refl)
        | inr old ↦ inl (rw old refl)
      ]

  pub send_fec_broadcast-Tracked :
      {E : Type 0} (e : EncoderEngine E) (o : Overlay D) (bytes : List ℕ) (target : BroadcastTarget)
      → Tracked o
      → Tracked (send_fec_broadcast c z choose e o bytes target).0
  unfolding send_fec_broadcast
  send_fec_broadcast-Tracked e o bytes target t =
      elim (Bool-cases (create_broadcast o (c.sha256 bytes)).1) [
        | inl is_new ↦ rw is_new (create_broadcast-Tracked o (c.sha256 bytes) t is_new)
        | inr old ↦ rw old t
      ]
