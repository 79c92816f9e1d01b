-- ===== src/Overlay/Fec/Forged.antt =====
-- A transfer that the first part has spoiled, src/overlay/overlay.rs: the signature of a part is
-- verified by the task of the transfer, once the transfer is there.
use tiny_adnl.Prelude.{
  ℕ, ◌<◌, ◌≡◌, ◌∙◌, refl, true, false, none, some, Result, ok, List, [], ◌∷◌, length, ◌==◌,
  if◌then◌else◌, arith, ℕ_discrete,
}
use tiny_adnl.Util.PacketsHistory.{PacketsHistory}
use tiny_adnl.Util.PacketsHistory.Start.{for_recv-first}
use tiny_adnl.Adnl.PeersSet.Choose.{get_random_peers}
use tiny_adnl.Rldp.Compression.{Zstd}
use tiny_adnl.Rldp.Incoming.{DecoderEngine}
use tiny_adnl.Overlay.Defs.{
  OverlayError, OverlayBroadcastFec, IncomingFecTransfer, incoming, Overlay,
}
use tiny_adnl.Overlay.Broadcasts.{
  OverlayCrypto, is_broadcast_outdated, make_fec_part_to_sign, has_any_sender,
}
use tiny_adnl.Overlay.Fec.{
  new_transfer, deliver_fec, spawn_fec_transfer_receiver, receive_fec_broadcast,
  process_fec_broadcast, transfer_task, to_message, put_transfer,
}
use tiny_adnl.Overlay.Fec.Ended.{Ended, Later, put_transfer-Ended, Later-Ended}

module _ (c : OverlayCrypto) {D : Type 0} (e : DecoderEngine D) (z : Zstd)
    (choose : List ℕ → ℕ → List ℕ) where
  -- The message of a first part.
  abbrev first_message : ℕ → OverlayBroadcastFec → ℕ → PacketsHistory → IncomingFecTransfer D
  first_message node_id b now history =
      record (new_transfer c e z b.fec (c.compute_short_id node_id) now) {
        history = history;
        queue = to_message c e z node_id b ∷ [];
      }

  receive_fec_broadcast-first :
      (o : Overlay D) (now peer_id node_id : ℕ) (b : OverlayBroadcastFec)
      → is_broadcast_outdated o now b.date ≡ false
      → c.to_full b.src ≡ some node_id
      → length b.signature ≡ 64
      → o.owned_broadcasts b.data_hash ≡ none
      → b.seqno < 256
      → (o' : Overlay D) × (r : Result OverlayError (List ℕ)) × (history : PacketsHistory)
        × (receive_fec_broadcast c e z choose o now peer_id b ≡ some (o', r))
        × (o'.owned_broadcasts b.data_hash ≡ some (incoming (first_message node_id b now history)))
        × (o'.received_broadcasts ≡ o.received_broadcasts)
  unfolding receive_fec_broadcast deliver_fec spawn_fec_transfer_receiver new_transfer
  receive_fec_broadcast-first o now peer_id node_id b early good long new small =
      let (history, fresh) = for_recv-first b.seqno small in
      let l : (length b.signature == 64) ≡ true = ground arith in
      let same : (c.compute_short_id node_id == c.compute_short_id node_id) ≡ true = ground arith in
      (
        put_transfer c e z
            (spawn_fec_transfer_receiver c e z o b.fec b.data_hash (c.compute_short_id node_id) now)
            b.data_hash (first_message node_id b now history),
        ok (
            get_random_peers ℕ_discrete choose o.neighbours
              o.options.secondary_fec_broadcast_target_count (some peer_id)),
        history,
        rw (early, good, l, new, same, fresh) refl,
        ground arith,
        refl,
      )

  -- A part with a wrong signature.
  abbrev pub IsForged : ℕ → OverlayBroadcastFec → Type 0
  IsForged node_id b =
      c.verify node_id
        (make_fec_part_to_sign c b.data_hash b.data_size b.date b.flags b.fec b.bytes b.seqno
          (if has_any_sender c b.flags then none else some (c.compute_short_id node_id)))
        b.signature
      ≡ false

  transfer_task-forged :
      (o : Overlay D) (now node_id : ℕ) (b : OverlayBroadcastFec) (history : PacketsHistory)
      → IsForged node_id b
      → Ended c e z choose b.data_hash
          (transfer_task c e z o b.data_hash (first_message node_id b now history))
        × ((transfer_task c e z o b.data_hash
              (first_message node_id b now history)).received_broadcasts
            ≡ o.received_broadcasts)
  unfolding transfer_task process_fec_broadcast new_transfer to_message
  transfer_task-forged o now node_id b history forged =
      rw forged (put_transfer-Ended c e z choose o b.data_hash _ refl, refl)

  -- The first part of a broadcast that the overlay does not know, not outdated, with a number below
  -- 256, in the name of anyone and with a wrong signature of 64 bytes, is taken, and makes a transfer;
  -- one round of its task ends it. Whatever parts of the broadcast come then, whoever has signed
  -- them, and however often this task and those that clean up go on, nothing of it is delivered until
  -- the collector forgets the broadcast.
  pub receive_fec_broadcast_forged :
      (o : Overlay D) (now peer_id node_id : ℕ) (b : OverlayBroadcastFec)
      → is_broadcast_outdated o now b.date ≡ false
      → c.to_full b.src ≡ some node_id
      → length b.signature ≡ 64
      → o.owned_broadcasts b.data_hash ≡ none
      → b.seqno < 256
      → IsForged node_id b
      → (o' : Overlay D) × (r : Result OverlayError (List ℕ)) × (t : IncomingFecTransfer D)
        × (receive_fec_broadcast c e z choose o now peer_id b ≡ some (o', r))
        × (o'.owned_broadcasts b.data_hash ≡ some (incoming t))
        × ((later : Overlay D)
            → Later c e z choose b.data_hash (transfer_task c e z o' b.data_hash t) later
            → later.received_broadcasts ≡ o.received_broadcasts)
  receive_fec_broadcast_forged o now peer_id node_id b early good long new small forged =
      let (o', r, history, taken, known, same) =
        receive_fec_broadcast-first o now peer_id node_id b early good long new small in
      let (ended, kept) = transfer_task-forged o' now node_id b history forged in
      (
        o',
        r,
        first_message node_id b now history,
        taken,
        known,
        λ later l. (Later-Ended c e z choose ended l).1 ∙ kept ∙ same,
      )
