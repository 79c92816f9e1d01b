-- ===== src/Overlay/Gc/Reach.antt =====
-- The steps of an overlay, src/overlay/overlay.rs, in any order: the calls of receivers and senders,
-- and the rounds of the tasks that they start.
use mathlib.Core.Path.{subst}
use tiny_adnl.Prelude.{
  ℕ, ◌+◌, ◌^◌, ◌≤◌, ◌<◌, ◌≡◌, refl, Bool, some, Result, List, arith, length, length-drop, ◌-◌,
}
use tiny_adnl.Rldp.Compression.{Zstd}
use tiny_adnl.Rldp.Incoming.{DecoderEngine}
use tiny_adnl.Rldp.Outgoing.{EncoderEngine}
use tiny_adnl.Overlay.Defs.{
  OverlayOptions, OverlayError, OverlayNode, OverlayBroadcast, OverlayBroadcastFec,
  IncomingFecTransfer, incoming, Overlay,
}
use tiny_adnl.Overlay.Broadcasts.{OverlayCrypto, receive_broadcast}
use tiny_adnl.Overlay.Broadcasts.Tracked.{receive_broadcast-Tracked}
use tiny_adnl.Overlay.Fec.{receive_fec_broadcast, transfer_task, cleanup_task}
use tiny_adnl.Overlay.Fec.Tracked.{
  TrackedAfter, receive_fec_broadcast-TrackedAfter, transfer_task-Tracked, cleanup_task-Tracked,
}
use tiny_adnl.Overlay.Outgoing.{BroadcastTarget, send_broadcast, send_fec_broadcast}
use tiny_adnl.Overlay.Outgoing.Tracked.{send_broadcast-Tracked, send_fec_broadcast-Tracked}
use tiny_adnl.Overlay.Peers.{insert_public_peer, remove_public_peer, new_overlay}
use tiny_adnl.Overlay.Peers.Tracked.{
  insert_public_peer-Tracked, remove_public_peer-Tracked, new_overlay-Tracked,
}
use tiny_adnl.Overlay.Gc.{finish_broadcast, gc_loop}
use tiny_adnl.Overlay.Gc.Tracked.{occurrences, Tracked, finish_broadcast-Tracked, gc_loop-Tracked}
use tiny_adnl.Overlay.Gc.Loop.{Collected, gc_loop-Collected}

module _ (c : OverlayCrypto) (z : Zstd) (choose : List ℕ → ℕ → List ℕ) {D E : Type 0}
    (d : DecoderEngine D) (e : EncoderEngine E) where
  -- What an overlay comes to from another one. A sleeping task, a waiting task and a message for the
  -- task of a transfer are there when their step is taken.
  pub data Reach (start : Overlay D) : Overlay D → Type 0 where
    started : Reach start start
    received :
        {o : Overlay D} (now peer_id : ℕ) (b : OverlayBroadcast)
        → Reach start o
        → Reach start (receive_broadcast c z choose o now peer_id b).0
    received_part :
        {o o' : Overlay D} (now peer_id : ℕ) (b : OverlayBroadcastFec)
        (r : Result OverlayError (List ℕ))
        → receive_fec_broadcast c d z choose o now peer_id b ≡ some (o', r)
        → Reach start o
        → Reach start o'
    decoded :
        {o : Overlay D} (id : ℕ) (t : IncomingFecTransfer D)
        → o.owned_broadcasts id ≡ some (incoming t)
        → Reach start o
        → Reach start (transfer_task c d z o id t)
    waited :
        {o : Overlay D} (is_expired : ℕ → Bool) (id : ℕ)
        → 1 ≤ occurrences id o.cleanups
        → Reach start o
        → Reach start (cleanup_task is_expired o id)
    slept :
        {o : Overlay D} (id : ℕ)
        → 1 ≤ occurrences id o.gc_tasks
        → o.finished_broadcast_count + 1 < 2 ^ 32
        → Reach start o
        → Reach start (finish_broadcast o id)
    collected :
        {o o' : Overlay D} (n : ℕ)
        → o.finished_broadcast_count < 2 ^ 32
        → gc_loop n o ≡ some o'
        → Reach start o
        → Reach start o'
    sent :
        {o : Overlay D} (now : ℕ) (bytes : List ℕ) (key : ℕ) (target : BroadcastTarget)
        → Reach start o
        → Reach start (send_broadcast c z choose o now bytes key target).0
    sent_parts :
        {o : Overlay D} (bytes : List ℕ) (target : BroadcastTarget)
        → Reach start o
        → Reach start (send_fec_broadcast c z choose e o bytes target).0
    peer_inserted :
        {o : Overlay D} (peer_id : ℕ) (node : OverlayNode)
        → Reach start o
        → Reach start (insert_public_peer o peer_id node)
    peer_removed :
        {o : Overlay D} (peer_id : ℕ)
        → Reach start o
        → Reach start (remove_public_peer choose o peer_id).0

  Reach-Tracked : {start o : Overlay D} → Tracked start → Reach start o → Tracked o
  Reach-Tracked t started = t
  Reach-Tracked t (received now peer_id b r) =
      receive_broadcast-Tracked c z choose _ now peer_id b (Reach-Tracked t r)
  Reach-Tracked t (received_part now peer_id b res h r) =
      subst TrackedAfter h
        (receive_fec_broadcast-TrackedAfter c d z choose _ now peer_id b (Reach-Tracked t r))
  Reach-Tracked t (decoded id x known r) =
      transfer_task-Tracked c d z choose _ id x known (Reach-Tracked t r)
  Reach-Tracked t (waited is_expired id h r) =
      cleanup_task-Tracked is_expired _ id h (Reach-Tracked t r)
  Reach-Tracked t (slept id h small r) = finish_broadcast-Tracked _ (Reach-Tracked t r) id h small
  Reach-Tracked t (collected n small h r) = gc_loop-Tracked n _ small h (Reach-Tracked t r)
  Reach-Tracked t (sent now bytes key target r) =
      send_broadcast-Tracked c z choose _ now bytes key target (Reach-Tracked t r)
  Reach-Tracked t (sent_parts bytes target r) =
      send_fec_broadcast-Tracked c z choose e _ bytes target (Reach-Tracked t r)
  Reach-Tracked t (peer_inserted peer_id node r) =
      insert_public_peer-Tracked _ peer_id node (Reach-Tracked t r)
  Reach-Tracked t (peer_removed peer_id r) =
      remove_public_peer-Tracked choose _ peer_id (Reach-Tracked t r)

  -- Whatever a new overlay comes to, the broadcasts that it counts as finished are those in its
  -- queue, and each broadcast that it knows, and no other, is exactly once with a waiting task, with
  -- a sleeping task or in the queue.
  pub Reach-new-Tracked :
      (node_key id : ℕ) (peers : List ℕ) (options : OverlayOptions) (o : Overlay D)
      → Reach (new_overlay choose node_key id peers options) o
      → Tracked o
  Reach-new-Tracked node_key id peers options o r =
      Reach-Tracked (new_overlay-Tracked choose node_key id peers options) r

  -- In whatever a new overlay comes to, with a count below 2^32, the collector's loop ends, given one
  -- round more than finished broadcasts are counted: it leaves no more finished ones than the log may
  -- have, has forgotten the oldest ones, and has left the other broadcasts as they were.
  pub gc_loop-ends :
      (node_key id : ℕ) (peers : List ℕ) (options : OverlayOptions) (o : Overlay D)
      → Reach (new_overlay choose node_key id peers options) o
      → o.finished_broadcast_count < 2 ^ 32
      → (o' : Overlay D) × (gc_loop (o.finished_broadcast_count + 1) o ≡ some o')
        × (length o'.finished_broadcasts ≤ o.options.max_broadcast_log)
        × Collected o o' (o.finished_broadcast_count - o.options.max_broadcast_log)
  gc_loop-ends node_key id peers options o r small =
      let t = Reach-new-Tracked node_key id peers options o r in
      let k = o.finished_broadcast_count - o.options.max_broadcast_log in
      let (o', ends, g) =
        gc_loop-Collected (o.finished_broadcast_count + 1) k o t.counted small refl (omega arith) in
      (o', ends, rw g.queue (omega (arith, length-drop k o.finished_broadcasts, t.counted)), g)
