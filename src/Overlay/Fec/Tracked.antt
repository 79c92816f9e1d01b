-- ===== src/Overlay/Fec/Tracked.antt =====
-- A broadcast in parts, src/overlay/overlay.rs, keeps account of the tasks.
use tiny_adnl.Prelude.{
  ℕ, ◌≡◌, ◌≤◌, Bool, true, false, Option, none, some, List, arith, Bool-cases, Option-cases,
  List-cases, inl, inr, length, ◌==◌,
}
use tiny_adnl.Util.PacketsHistory.{deliver_packet}
use tiny_adnl.Rldp.Compression.{Zstd}
use tiny_adnl.Rldp.Incoming.{DecoderEngine}
use tiny_adnl.Overlay.Defs.{
  OverlayBroadcastFec, IncomingFecTransfer, other, incoming, Overlay, put_broadcast,
}
use tiny_adnl.Overlay.Broadcasts.{OverlayCrypto, is_broadcast_outdated, spawn_broadcast_gc_task}
use tiny_adnl.Overlay.Fec.{
  new_transfer, spawn_fec_transfer_receiver, deliver_fec, receive_fec_broadcast,
  process_fec_broadcast, transfer_task, cleanup_task,
}
use tiny_adnl.Adnl.Receiver.Stages.{Result-cases}
use tiny_adnl.Overlay.Gc.Tracked.{
  Tracked, TracksAll, Tracked-waiting, Tracked-changed, Tracked-moved, occurrences,
}

-- What a call leaves, if it ends.
abbrev pub TrackedAfter : {D X : Type 0} → Option (Overlay D × X) → Type 0
TrackedAfter none = Unit
TrackedAfter (some (o, _)) = Tracked o

module _ (c : OverlayCrypto) {D : Type 0} (e : DecoderEngine D) (z : Zstd)
    (choose : List ℕ → ℕ → List ℕ) where
  -- The transfer that is there, or was just made, is written back whatever comes of the part.
  deliver_fec-TrackedAfter :
      (o : Overlay D) (now peer_id node_id : ℕ) (b : OverlayBroadcastFec)
      (t : IncomingFecTransfer D)
      → ((new : IncomingFecTransfer D)
          → TracksAll
              (put_broadcast o.owned_broadcasts b.data_hash (some (incoming new)))
              o.cleanups
              o.gc_tasks
              o.finished_broadcasts
              o.finished_broadcast_count)
      → TrackedAfter (deliver_fec c e z choose o now peer_id node_id b t)
  unfolding deliver_fec
  deliver_fec-TrackedAfter o now peer_id node_id b t k =
      elim (Bool-cases (t.source == c.compute_short_id node_id)) [
        | inr f ↦ rw f (k _)
        | inl s ↦ elim (Option-cases (deliver_packet t.history b.seqno)) [
          | inl busy ↦ rw (s, busy) tt
          | inr ((true, history), here) ↦ rw (s, here) (k _)
          | inr ((false, history), here) ↦ rw (s, here) (k _)
        ]
      ]

  pub receive_fec_broadcast-TrackedAfter :
      (o : Overlay D) (now peer_id : ℕ) (b : OverlayBroadcastFec)
      → Tracked o
      → TrackedAfter (receive_fec_broadcast c e z choose o now peer_id b)
  unfolding receive_fec_broadcast spawn_fec_transfer_receiver
  receive_fec_broadcast-TrackedAfter o now peer_id b t =
      elim (Bool-cases (is_broadcast_outdated o now b.date)) [
        | inl late ↦ rw late t
        | inr early ↦ elim (Option-cases (c.to_full b.src)) [
          | inl bad ↦ rw (early, bad) t
          | inr (node_id, good) ↦ elim (Bool-cases (length b.signature == 64)) [
            | inr short ↦ rw (early, good, short) t
            | inl long ↦ elim (Option-cases (o.owned_broadcasts b.data_hash)) [
              | inl new ↦
                  let made = new_transfer c e z b.fec (c.compute_short_id node_id) now in
                  let o' =
                    spawn_fec_transfer_receiver c e z o b.fec b.data_hash
                      (c.compute_short_id node_id) now in
                  rw (early, good, long, new)
                    (deliver_fec-TrackedAfter o' now peer_id node_id b made (λ x.
                      Tracked-changed o' (Tracked-waiting o t b.data_hash (incoming made) new)
                        b.data_hash (incoming made) (incoming x) (ground arith)))
              | inr (other, known) ↦ rw (early, good, long, known) t
              | inr (incoming transfer, known) ↦
                  rw (early, good, long, known)
                    (deliver_fec-TrackedAfter o now peer_id node_id b transfer
                      (λ x. Tracked-changed o t b.data_hash (incoming transfer) (incoming x) known))
            ]
          ]
        ]
      ]

  pub transfer_task-Tracked :
      (o : Overlay D) (id : ℕ) (t : IncomingFecTransfer D)
      → o.owned_broadcasts id ≡ some (incoming t)
      → Tracked o
      → Tracked (transfer_task c e z o id t)
  unfolding transfer_task
  transfer_task-Tracked o id t known k = elim (List-cases t.queue) [
    | inl q ↦ rw q k
    | inr (m, rest, q) ↦ elim (Bool-cases t.completed) [
      | inl done ↦ rw (q, done) k
      | inr going ↦ elim (Result-cases (process_fec_broadcast c e z t.decoder m).1) [
        | inr (none, r) ↦ rw (q, going, r) (Tracked-changed o k id (incoming t) _ known)
        | inr (some bytes, r) ↦ rw (q, going, r) (Tracked-changed o k id (incoming t) _ known)
        | inl (x, r) ↦ rw (q, going, r) (Tracked-changed o k id (incoming t) _ known)
      ]
    ]
  ]

pub cleanup_task-Tracked :
    {D : Type 0} (is_expired : ℕ → Bool) (o : Overlay D) (id : ℕ)
    → 1 ≤ occurrences id o.cleanups
    → Tracked o
    → Tracked (cleanup_task is_expired o id)
unfolding cleanup_task spawn_broadcast_gc_task
cleanup_task-Tracked is_expired o id h t = elim (Option-cases (o.owned_broadcasts id)) [
  | inl gone ↦ rw (gone, cleanup_task) (Tracked-moved o t id h)
  | inr (other, known) ↦ rw (known, cleanup_task) (Tracked-moved o t id h)
  | inr (incoming x, known) ↦ elim (Bool-cases x.completed) [
    | inl done ↦ rw (known, cleanup_task, done) (Tracked-moved o t id h)
    | inr going ↦ elim (Bool-cases (is_expired x.updated_at)) [
      | inl old ↦ rw (known, cleanup_task, going, old) (Tracked-moved o t id h)
      | inr young ↦ rw (known, cleanup_task, going, young) t
    ]
  ]
]
