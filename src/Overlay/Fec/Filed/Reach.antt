-- ===== src/Overlay/Fec/Filed/Reach.antt =====
-- The messages that wait in whatever an overlay comes to, src/overlay/overlay.rs.
use mathlib.Core.Option.{none-ne-some}
use mathlib.Core.Path.{subst}
use tiny_adnl.Prelude.{
  ℕ, ◌∙◌, sym, none, some, Option, List, Bool-cases, Option-cases, inl, inr, if◌then◌else◌,
}
use tiny_adnl.Rldp.Compression.{Zstd}
use tiny_adnl.Rldp.Incoming.{DecoderEngine}
use tiny_adnl.Rldp.Outgoing.{EncoderEngine}
use tiny_adnl.Overlay.Defs.{OverlayOptions, OverlayBroadcast, Overlay}
use tiny_adnl.Overlay.Broadcasts.{
  OverlayCrypto, is_broadcast_outdated, has_any_sender, signed_data, make_broadcast_to_sign,
  create_broadcast, spawn_broadcast_gc_task, receive_broadcast,
}
use tiny_adnl.Overlay.Outgoing.{BroadcastTarget, send_broadcast}
use tiny_adnl.Overlay.Outgoing.Tracked.{send_fec_broadcast-owned}
use tiny_adnl.Overlay.Peers.{new_overlay}
use tiny_adnl.Overlay.Peers.Tracked.{
  new_overlay-owned, insert_public_peer-owned, remove_public_peer-owned,
}
use tiny_adnl.Overlay.Gc.{finish_broadcast}
use tiny_adnl.Overlay.Gc.Owned.{Forgets, gc_loop-Forgets}
use tiny_adnl.Overlay.Gc.Reach.{
  Reach, started, received, received_part, decoded, waited, slept, collected, sent, sent_parts,
  peer_inserted, peer_removed,
}
use tiny_adnl.Overlay.Fec.Filed.{
  FiledAll, FiledAfter, create_broadcast-Filed, receive_fec_broadcast-FiledAfter,
  transfer_task-Filed, cleanup_task-owned,
}

module _ (c : OverlayCrypto) (z : Zstd) (choose : List ℕ → ℕ → List ℕ) {D : Type 0} where
  receive_broadcast-Filed :
      (o : Overlay D) (now peer_id : ℕ) (b : OverlayBroadcast)
      → FiledAll c o.owned_broadcasts
      → FiledAll c (receive_broadcast c z choose o now peer_id b).0.owned_broadcasts
  unfolding receive_broadcast spawn_broadcast_gc_task
  receive_broadcast-Filed o now peer_id b f =
      elim (Bool-cases (is_broadcast_outdated o now b.date)) [
        | inl late ↦ rw late f
        | inr early ↦ elim (Option-cases (c.to_full b.src)) [
          | inl bad ↦ rw (early, bad) f
          | inr (node_id, good) ↦
              let source : Option ℕ =
                if has_any_sender c b.flags then none else some (c.compute_short_id node_id) in
              elim (Option-cases (signed_data c z choose node_id source b)) [
                | inl forged ↦ rw (early, good, forged) f
                | inr (bytes, signed) ↦
                    let id = c.hash_to_sign (make_broadcast_to_sign c bytes b.date source) in
                    elim (Bool-cases (create_broadcast o id).1) [
                      | inr old ↦ rw (early, good, signed, old) f
                      | inl is_new ↦
                          rw (early, good, signed, is_new) (create_broadcast-Filed c o id f)
                    ]
              ]
        ]
      ]

  send_broadcast-Filed :
      (o : Overlay D) (now : ℕ) (bytes : List ℕ) (key : ℕ) (target : BroadcastTarget)
      → FiledAll c o.owned_broadcasts
      → FiledAll c (send_broadcast c z choose o now bytes key target).0.owned_broadcasts
  unfolding send_broadcast spawn_broadcast_gc_task
  send_broadcast-Filed o now bytes key target f =
      let id = c.hash_to_sign (make_broadcast_to_sign c bytes now none) in
      elim (Bool-cases (create_broadcast o id).1) [
        | inl is_new ↦ rw is_new (create_broadcast-Filed c o id f)
        | inr old ↦ rw old f
      ]

  Forgets-Filed :
      {o o' : Overlay D}
      → Forgets o o'
      → FiledAll c o.owned_broadcasts
      → FiledAll c o'.owned_broadcasts
  Forgets-Filed g f i t known = elim (g.owned i) [
    | inl gone ↦ absurd (none-ne-some _ (sym gone ∙ known))
    | inr same ↦ f i t (sym same ∙ known)
  ]

  new_overlay-Filed :
      (node_key id : ℕ) (peers : List ℕ) (options : OverlayOptions)
      → FiledAll c {D = D} (new_overlay choose node_key id peers options).owned_broadcasts
  new_overlay-Filed node_key id peers options i t h =
      absurd (none-ne-some _ (sym (new_overlay-owned choose node_key id peers options i) ∙ h))

  module _ {E : Type 0} (d : DecoderEngine D) (e : EncoderEngine E) where
    Reach-Filed :
        {start o : Overlay D}
        → FiledAll c start.owned_broadcasts
        → Reach c z choose d e start o
        → FiledAll c o.owned_broadcasts
    unfolding finish_broadcast
    Reach-Filed f started = f
    Reach-Filed f (received now peer_id b r) =
        receive_broadcast-Filed _ now peer_id b (Reach-Filed f r)
    Reach-Filed f (received_part now peer_id b res h r) =
        subst (FiledAfter c) h
          (receive_fec_broadcast-FiledAfter c d z choose _ now peer_id b (Reach-Filed f r))
    Reach-Filed f (decoded id x known r) =
        transfer_task-Filed c d z choose _ id x known (Reach-Filed f r)
    Reach-Filed f (waited {o = o} is_expired id h r) =
        subst (FiledAll c) (sym (cleanup_task-owned is_expired o id).0) (Reach-Filed f r)
    Reach-Filed f (slept id h small r) = Reach-Filed f r
    Reach-Filed f (collected {o = o} n small h r) =
        Forgets-Filed (gc_loop-Forgets n o h) (Reach-Filed f r)
    Reach-Filed f (sent now bytes key target r) =
        send_broadcast-Filed _ now bytes key target (Reach-Filed f r)
    Reach-Filed f (sent_parts {o = o} bytes target r) =
        elim (send_fec_broadcast-owned c z choose e o bytes target) [
          | inl same ↦ subst (FiledAll c) (sym same) (Reach-Filed f r)
          | inr made ↦
              subst (FiledAll c) (sym made)
                (create_broadcast-Filed c o (c.sha256 bytes) (Reach-Filed f r))
        ]
    Reach-Filed f (peer_inserted {o = o} peer_id node r) =
        subst (FiledAll c) (sym (insert_public_peer-owned o peer_id node)) (Reach-Filed f r)
    Reach-Filed f (peer_removed {o = o} peer_id r) =
        subst (FiledAll c) (sym (remove_public_peer-owned choose o peer_id)) (Reach-Filed f r)

    -- In whatever a new overlay comes to, each message that waits for the task of a transfer has the
    -- hash under which the transfer is known, and its sender is the transfer's source.
    pub Reach-new-Filed :
        (node_key id : ℕ) (peers : List ℕ) (options : OverlayOptions) (o : Overlay D)
        → Reach c z choose d e (new_overlay choose node_key id peers options) o
        → FiledAll c o.owned_broadcasts
    Reach-new-Filed node_key id peers options o r =
        Reach-Filed (new_overlay-Filed node_key id peers options) r
