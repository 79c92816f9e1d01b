-- ===== src/Overlay/Fec.antt =====
-- How an overlay receives a broadcast in parts, src/overlay/overlay.rs: the handler of a part, the
-- task of a transfer, and the task that waits for its end. `none` is a packet history that another
-- task holds.
pub mod Tracked
pub mod Filed
pub mod Ended
pub mod Forged
pub mod Delivered
mod Tests
use tiny_adnl.Prelude.Bytes.{add32}
use tiny_adnl.Prelude.{
  ℕ, Bool, true, false, Option, none, some, Result, ok, err, List, [], ◌∷◌, ◌++◌, if◌then◌else◌,
  ◌==◌, not, length, ℕ_discrete,
}
use tiny_adnl.Util.PacketsHistory.{for_recv, deliver_packet}
use tiny_adnl.Adnl.PeersSet.Choose.{get_random_peers}
use tiny_adnl.Rldp.Compression.{Zstd, decompress}
use tiny_adnl.Rldp.Incoming.{FecType, DecoderEngine, RaptorQDecoder, with_params, decode}
use tiny_adnl.Overlay.Defs.{
  OverlayError, OverlayBroadcastFec, BroadcastFec, IncomingFecTransfer, other, incoming, Overlay,
  put_broadcast, without,
}
use tiny_adnl.Overlay.Broadcasts.{
  OverlayCrypto, is_broadcast_outdated, make_fec_part_to_sign, has_any_sender,
  spawn_broadcast_gc_task,
}

module _ (c : OverlayCrypto) where
  module _ {D : Type 0} (e : DecoderEngine D) (z : Zstd) where
    -- The transfer with its task, for a broadcast that is not known yet.
    pub new_transfer : FecType → ℕ → ℕ → IncomingFecTransfer D
    new_transfer fec_type source now = record {
      completed = false;
      history = for_recv;
      queue = [];
      source = source;
      updated_at = now;
      decoder = with_params e fec_type;
      packets = 0;
    }

    pub spawn_fec_transfer_receiver : Overlay D → FecType → ℕ → ℕ → ℕ → Overlay D
    spawn_fec_transfer_receiver o fec_type id source now = record o {
      owned_broadcasts =
          put_broadcast o.owned_broadcasts id (some (incoming (new_transfer fec_type source now)));
      cleanups = id ∷ o.cleanups;
    }

    abbrev pub put_transfer : Overlay D → ℕ → IncomingFecTransfer D → Overlay D
    put_transfer o id t = record o {
      owned_broadcasts = put_broadcast o.owned_broadcasts id (some (incoming t));
    }

    pub to_message : ℕ → OverlayBroadcastFec → BroadcastFec
    to_message node_id b = record {
      node_id = node_id;
      data_hash = b.data_hash;
      data_size = b.data_size;
      flags = b.flags;
      bytes = b.bytes;
      seqno = b.seqno;
      fec_type = b.fec;
      date = b.date;
      signature = b.signature;
    }

    -- What follows once the transfer is there.
    pub deliver_fec :
        (List ℕ → ℕ → List ℕ)
        → Overlay D
        → ℕ
        → ℕ
        → ℕ
        → OverlayBroadcastFec
        → IncomingFecTransfer D
        → Option (Overlay D × Result OverlayError (List ℕ))
    deliver_fec choose o now peer_id node_id b transfer =
        let t : IncomingFecTransfer D = record transfer { updated_at = now } in
        if not (t.source == c.compute_short_id node_id)
        then some (put_transfer o b.data_hash t, ok [])
        else elim (deliver_packet t.history b.seqno) [
          | none ↦ none
          | some (fresh, history) ↦
              let heard : IncomingFecTransfer D = record t { history = history } in
              if fresh
              then some (
                put_transfer o b.data_hash (
                    if heard.completed
                    then heard
                    else record heard { queue = heard.queue ++ (to_message node_id b ∷ []) }),
                ok (
                    get_random_peers ℕ_discrete choose o.neighbours
                      o.options.secondary_fec_broadcast_target_count (some peer_id)),
              )
              else some (put_transfer o b.data_hash heard, ok [])
        ]

    pub receive_fec_broadcast :
        (List ℕ → ℕ → List ℕ)
        → Overlay D
        → ℕ
        → ℕ
        → OverlayBroadcastFec
        → Option (Overlay D × Result OverlayError (List ℕ))
    receive_fec_broadcast choose o now peer_id b =
        if is_broadcast_outdated o now b.date then some (o, ok []) else elim (c.to_full b.src) [
          | none ↦ some (o, err OverlayError.invalid_public_key)
          | some node_id ↦
              let source = c.compute_short_id node_id in
              if not (length b.signature == 64)
              then some (o, err OverlayError.unsupported_signature)
              else elim (o.owned_broadcasts b.data_hash) [
                | none ↦
                    deliver_fec choose (spawn_fec_transfer_receiver o b.fec b.data_hash source now)
                      now peer_id node_id b (new_transfer b.fec source now)
                | some other ↦ some (o, ok [])
                | some (incoming transfer) ↦ deliver_fec choose o now peer_id node_id b transfer
              ]
        ]

    pub check_decoded : ℕ → ℕ → List ℕ → Result OverlayError (Option (List ℕ))
    check_decoded id data_size result =
        let plain : Result OverlayError (Option (List ℕ)) =
          if c.sha256 result == id then ok (some result) else err OverlayError.data_hash_mismatch in
        if not (length result == data_size)
        then err OverlayError.data_size_mismatch
        else elim (decompress z result) [
          | none ↦ plain
          | some bytes ↦ if c.sha256 bytes == id then ok (some bytes) else plain
        ]

    pub process_fec_broadcast :
        RaptorQDecoder D → BroadcastFec → RaptorQDecoder D × Result OverlayError (Option (List ℕ))
    process_fec_broadcast decoder m =
        let to_sign =
          make_fec_part_to_sign c m.data_hash m.data_size m.date m.flags m.fec_type m.bytes m.seqno
            (if has_any_sender c m.flags then none else some (c.compute_short_id m.node_id)) in
        if not (c.verify m.node_id to_sign m.signature)
        then (decoder, err OverlayError.bad_signature)
        else (let (decoder', out) = decode e decoder m.seqno m.bytes in
            (
              decoder',
              elim out [
                | none ↦ ok none
                | some result ↦ check_decoded m.data_hash m.data_size result
              ],
            ))

    -- One round of the task of a transfer: it takes the next message, if there is one.
    pub transfer_task : Overlay D → ℕ → IncomingFecTransfer D → Overlay D
    transfer_task o id t = elim t.queue [
      | [] ↦ o
      | m ∷ rest ↦
          let (decoder, outcome) = process_fec_broadcast t.decoder m in
          let t' : IncomingFecTransfer D = record t {
            queue = rest;
            decoder = decoder;
            packets = add32 t.packets 1;
          } in
          if t.completed then o else elim outcome [
            | ok none ↦ put_transfer o id t'
            | ok (some bytes) ↦
                put_transfer
                  (record o {
                    received_broadcasts =
                        o.received_broadcasts
                        ++ (record { packets = t'.packets; bytes = bytes; from = t'.source } ∷ []);
                  })
                  id (record t' { completed = true })
            | err _ ↦ put_transfer o id (record t' { completed = true })
          ]
    ]

-- One round of the task that waits for the end of a transfer.
pub cleanup_task : {D : Type 0} → (ℕ → Bool) → Overlay D → ℕ → Overlay D
cleanup_task {D = D} is_expired o id =
    let ends : Overlay D =
      spawn_broadcast_gc_task (record o { cleanups = without id o.cleanups }) id in
    elim (o.owned_broadcasts id) [
      | some (incoming t) ↦
          if t.completed then ends else if is_expired t.updated_at then ends else o
      | some other ↦ ends
      | none ↦ ends
    ]
