-- ===== src/Overlay/Fec/Filed.antt =====
-- What waits for the task of a transfer, src/overlay/overlay.rs: a message is filed under the hash
-- that it has itself, and comes from the source of the transfer.
pub mod Reach
use mathlib.Core.Path.{subst}
use tiny_adnl.Prelude.{
  ℕ, zero, suc, ◌≡◌, refl, sym, Bool, true, false, Option, none, some, Result, List, [], ◌∷◌, ◌++◌,
  length, ◌==◌, arith, ltb, Bool-cases, Option-cases, List-cases, inl, inr,
}
use tiny_adnl.Util.PacketsHistory.{deliver_packet}
use tiny_adnl.Adnl.Receiver.Stages.{Result-cases}
use tiny_adnl.Rldp.Compression.{Zstd}
use tiny_adnl.Rldp.Incoming.{DecoderEngine}
use tiny_adnl.Overlay.Defs.{
  OverlayError, OverlayBroadcastFec, BroadcastFec, IncomingFecTransfer, OwnedBroadcast, other,
  incoming, Overlay, put_broadcast,
}
use tiny_adnl.Overlay.Broadcasts.{
  OverlayCrypto, is_broadcast_outdated, create_broadcast, spawn_broadcast_gc_task,
}
use tiny_adnl.Overlay.Fec.{
  new_transfer, spawn_fec_transfer_receiver, to_message, deliver_fec, receive_fec_broadcast,
  process_fec_broadcast, transfer_task, cleanup_task,
}

module _ (c : OverlayCrypto) where
  -- Each message has the hash and the source.
  abbrev pub OfTransfer : ℕ → ℕ → List BroadcastFec → Type 0
  OfTransfer id source [] = Unit
  OfTransfer id source (m ∷ r) =
      (m.data_hash ≡ id) × (c.compute_short_id m.node_id ≡ source) × OfTransfer id source r

  OfTransfer-append :
      (id source : ℕ) (q : List BroadcastFec) (m : BroadcastFec)
      → OfTransfer id source q
      → m.data_hash ≡ id
      → c.compute_short_id m.node_id ≡ source
      → OfTransfer id source (q ++ (m ∷ []))
  OfTransfer-append id source [] m all h s = (h, s, tt)
  OfTransfer-append id source (x ∷ q) m all h s =
      (all.0, all.1, OfTransfer-append id source q m all.2 h s)

  module _ {D : Type 0} where
    abbrev pub FiledAll : (ℕ → Option (OwnedBroadcast D)) → Type 0
    FiledAll owned =
        (id : ℕ) (t : IncomingFecTransfer D)
        → owned id ≡ some (incoming t)
        → OfTransfer id t.source t.queue

    abbrev pub FiledAfter : {X : Type 0} → Option (Overlay D × X) → Type 0
    FiledAfter none = Unit
    FiledAfter (some (o, _)) = FiledAll o.owned_broadcasts

    abbrev queue_of : OwnedBroadcast D → ℕ × List BroadcastFec
    queue_of other = (0, [])
    queue_of (incoming t) = (t.source, t.queue)

    -- What is put has nothing that waits, or what is right.
    Filed-put :
        (owned : ℕ → Option (OwnedBroadcast D)) (id : ℕ) (b : Option (OwnedBroadcast D))
        → FiledAll owned
        → ((t : IncomingFecTransfer D) → b ≡ some (incoming t) → OfTransfer id t.source t.queue)
        → FiledAll (put_broadcast owned id b)
    Filed-put owned id b f k i t h = elim (Bool-cases (i == id)) [
      | inl same ↦
          let e : i ≡ id = ground arith in
          subst (λ j. OfTransfer j t.source t.queue) (sym e) (k t (ground (arith, same)))
      | inr differs ↦ f i t (ground (arith, differs))
    ]

    Filed-incoming :
        (owned : ℕ → Option (OwnedBroadcast D)) (id : ℕ) (new : IncomingFecTransfer D)
        → FiledAll owned
        → OfTransfer id new.source new.queue
        → FiledAll (put_broadcast owned id (some (incoming new)))
    Filed-incoming owned id new f k = Filed-put owned id (some (incoming new)) f (λ t h.
        let e : ◌≡◌ {A = ℕ × List BroadcastFec} (new.source, new.queue) (t.source, t.queue) =
          ground (arith, h) in
        subst (λ (p : ℕ × List BroadcastFec). OfTransfer id p.0 p.1) e k)

    pub create_broadcast-Filed :
        (o : Overlay D) (id : ℕ)
        → FiledAll o.owned_broadcasts
        → FiledAll (create_broadcast o id).0.owned_broadcasts
    unfolding create_broadcast
    create_broadcast-Filed o id f = elim (Option-cases (o.owned_broadcasts id)) [
      | inr (b, known) ↦ rw (create_broadcast, known) f
      | inl new ↦
          rw (create_broadcast, new)
            (Filed-put o.owned_broadcasts id (some other) f (λ t h. absurd (cc)))
    ]

    module _ (e : DecoderEngine D) (z : Zstd) (choose : List ℕ → ℕ → List ℕ) where
      -- The message of a part is put behind those that wait, if its source is the transfer's.
      deliver_fec-FiledAfter :
          (o : Overlay D) (now peer_id node_id : ℕ) (b : OverlayBroadcastFec)
          (t : IncomingFecTransfer D)
          → FiledAll o.owned_broadcasts
          → OfTransfer b.data_hash t.source t.queue
          → FiledAfter (deliver_fec c e z choose o now peer_id node_id b t)
      unfolding deliver_fec to_message
      deliver_fec-FiledAfter o now peer_id node_id b t f q =
          elim (Bool-cases (t.source == c.compute_short_id node_id)) [
            | inr differs ↦
                rw differs (
                  Filed-incoming o.owned_broadcasts b.data_hash (record t { updated_at = now }) f q)
            | inl same ↦ elim (Option-cases (deliver_packet t.history b.seqno)) [
              | inl busy ↦ rw (same, busy) tt
              | inr ((false, history), here) ↦
                  rw (same, here)
                    (Filed-incoming o.owned_broadcasts b.data_hash
                      (record t { updated_at = now; history = history }) f q)
              | inr ((true, history), here) ↦
                  let heard : IncomingFecTransfer D = record t {
                    updated_at = now;
                    history = history;
                  } in
                  elim (Bool-cases t.completed) [
                    | inl done ↦
                        rw (same, here, done)
                          (Filed-incoming o.owned_broadcasts b.data_hash
                            (record heard { completed = true }) f q)
                    | inr going ↦
                        let m = to_message c e z node_id b in
                        rw (same, here, going)
                          (Filed-incoming o.owned_broadcasts b.data_hash
                            (record heard { completed = false; queue = t.queue ++ (m ∷ []) }) f
                            (OfTransfer-append b.data_hash t.source t.queue m q refl
                              (ground (arith, same))))
                  ]
            ]
          ]

      pub receive_fec_broadcast-FiledAfter :
          (o : Overlay D) (now peer_id : ℕ) (b : OverlayBroadcastFec)
          → FiledAll o.owned_broadcasts
          → FiledAfter (receive_fec_broadcast c e z choose o now peer_id b)
      unfolding receive_fec_broadcast spawn_fec_transfer_receiver new_transfer
      receive_fec_broadcast-FiledAfter o now peer_id b f =
          elim (Bool-cases (is_broadcast_outdated o now b.date)) [
            | inl late ↦ rw late f
            | inr early ↦ elim (Option-cases (c.to_full b.src)) [
              | inl bad ↦ rw (early, bad) f
              | inr (node_id, good) ↦ elim (Bool-cases (length b.signature == 64)) [
                | inr short ↦ rw (early, good, short) f
                | inl long ↦ elim (Option-cases (o.owned_broadcasts b.data_hash)) [
                  | inr (other, known) ↦ rw (early, good, long, known) f
                  | inr (incoming t, known) ↦
                      rw (early, good, long, known)
                        (deliver_fec-FiledAfter o now peer_id node_id b t f (f b.data_hash t known))
                  | inl new ↦
                      let source = c.compute_short_id node_id in
                      let made = new_transfer c e z b.fec source now in
                      rw (early, good, long, new)
                        (deliver_fec-FiledAfter
                          (spawn_fec_transfer_receiver c e z o b.fec b.data_hash source now) now
                          peer_id node_id b made
                          (Filed-incoming o.owned_broadcasts b.data_hash made f tt) tt)
                ]
              ]
            ]
          ]

      pub transfer_task-Filed :
          (o : Overlay D) (id : ℕ) (t : IncomingFecTransfer D)
          → o.owned_broadcasts id ≡ some (incoming t)
          → FiledAll o.owned_broadcasts
          → FiledAll (transfer_task c e z o id t).owned_broadcasts
      unfolding transfer_task
      transfer_task-Filed o id t known f = elim (List-cases t.queue) [
        | inl q ↦ rw q f
        | inr (m, rest, q) ↦
            let left : OfTransfer id t.source rest = (rw q at (f id t known)).2 in
            elim (Bool-cases t.completed) [
              | inl done ↦ rw (q, done) f
              | inr going ↦ elim (Result-cases (process_fec_broadcast c e z t.decoder m).1) [
                | inr (none, r) ↦ rw (q, going, r) (Filed-incoming o.owned_broadcasts id _ f left)
                | inr (some bytes, r) ↦
                    rw (q, going, r) (Filed-incoming o.owned_broadcasts id _ f left)
                | inl (x, r) ↦ rw (q, going, r) (Filed-incoming o.owned_broadcasts id _ f left)
              ]
            ]
      ]

pub cleanup_task-owned :
    {D : Type 0} (is_expired : ℕ → Bool) (o : Overlay D) (id : ℕ)
    → ((cleanup_task is_expired o id).owned_broadcasts ≡ o.owned_broadcasts)
      × ((cleanup_task is_expired o id).received_broadcasts ≡ o.received_broadcasts)
unfolding cleanup_task spawn_broadcast_gc_task
cleanup_task-owned is_expired o id = elim (Option-cases (o.owned_broadcasts id)) [
  | inl gone ↦ rw (gone, cleanup_task) (refl, refl)
  | inr (other, known) ↦ rw (known, cleanup_task) (refl, refl)
  | inr (incoming x, known) ↦ elim (Bool-cases x.completed) [
    | inl done ↦ rw (known, cleanup_task, done) (refl, refl)
    | inr going ↦ elim (Bool-cases (is_expired x.updated_at)) [
      | inl old ↦ rw (known, cleanup_task, going, old) (refl, refl)
      | inr young ↦ rw (known, cleanup_task, going, young) (refl, refl)
    ]
  ]
]
