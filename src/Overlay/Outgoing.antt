-- ===== src/Overlay/Outgoing.antt =====
-- How an overlay sends broadcasts, src/overlay/overlay.rs. What is sent is the message, before it is
-- serialized, and the list of its recipients.
pub mod Tracked
pub mod RoundTrip
pub mod Waves
use tiny_adnl.Prelude.Bytes.{add32}
use tiny_adnl.Prelude.{
  ℕ, zero, suc, ◌+◌, ◌*◌, ◌/◌, ◌%◌, ◌^◌, Bool, true, false, Option, none, some, Result, ok, err,
  List, [], ◌∷◌, if◌then◌else◌, ltb, leb, length, ℕ_discrete,
}
use tiny_adnl.Adnl.PeersSet.Choose.{get_random_peers}
use tiny_adnl.Rldp.Compression.{Zstd, compress}
use tiny_adnl.Rldp.Outgoing.{
  EncoderEngine, RaptorQEncoder, OutgoingTransferError, with_data, encode,
}
use tiny_adnl.Overlay.Defs.{OverlayBroadcast, OverlayBroadcastFec, Overlay}
use tiny_adnl.Overlay.Broadcasts.{
  OverlayCrypto, broadcast_flag_any_sender, create_broadcast, spawn_broadcast_gc_task,
  make_broadcast_to_sign, make_fec_part_to_sign,
}

pub data BroadcastTarget : Type 0 where
  random_neighbours : BroadcastTarget
  explicit : List ℕ → BroadcastTarget

pub record OutgoingBroadcastInfo : Type 0 where
  pub packets : ℕ
  pub recipient_count : ℕ

pub record OutgoingFecTransfer (E : Type 0) : Type 0 where
  pub broadcast_id : ℕ
  pub encoder : RaptorQEncoder E
  pub seqno : ℕ

module _ (c : OverlayCrypto) (z : Zstd) (choose : List ℕ → ℕ → List ℕ) {D : Type 0} where
  pub recipients : Overlay D → BroadcastTarget → List ℕ
  recipients o random_neighbours =
      get_random_peers ℕ_discrete choose o.neighbours o.options.broadcast_target_count none
  recipients o (explicit neighbours) = neighbours

  -- The data of the message: as it was, if it is not to be compressed, or cannot be.
  pub packed : Overlay D → List ℕ → List ℕ
  packed o bytes =
      if o.options.force_compression
      then elim (compress z bytes) [ none ↦ bytes | some shorter ↦ shorter ]
      else bytes

  -- The message and its recipients are `none` for a broadcast that is there already.
  unfoldable pub send_broadcast :
      Overlay D
      → ℕ
      → List ℕ
      → ℕ
      → BroadcastTarget
      → Overlay D × (OutgoingBroadcastInfo × Option (OverlayBroadcast × List ℕ))
  send_broadcast o now bytes key target =
      let to_sign = make_broadcast_to_sign c bytes now none in
      let id = c.hash_to_sign to_sign in
      let (o', is_new) = create_broadcast o id in
      if is_new
      then (
        spawn_broadcast_gc_task o' id,
        (
          record { packets = 1; recipient_count = length (recipients o target) },
          some (
            record {
              src = c.as_tl (c.full_id key);
              flags = broadcast_flag_any_sender;
              bytes = packed o bytes;
              date = now;
              signature = c.sign key to_sign;
            },
            recipients o target,
          ),
        ),
      )
      else (o, (record { packets = 0; recipient_count = 0 }, none))

  module _ {E : Type 0} (e : EncoderEngine E) where
    -- What the task of the sender starts with, and the recipients; it is `none` for a broadcast that
    -- is there already.
    pub send_fec_broadcast :
        Overlay D
        → List ℕ
        → BroadcastTarget
        → Overlay D × (OutgoingBroadcastInfo × Option (OutgoingFecTransfer E × List ℕ))
    send_fec_broadcast o bytes target =
        let id = c.sha256 bytes in
        let (o', is_new) = create_broadcast o id in
        let encoder : RaptorQEncoder E = with_data e (packed o bytes) in
        let packets =
          (length (packed o bytes) % 2 ^ 32 / encoder.params.packet_len + 1) * 3 % 2 ^ 32 / 2 in
        if is_new
        then (
          spawn_broadcast_gc_task o' id,
          (
            record { packets = packets; recipient_count = length (recipients o target) },
            some (record { broadcast_id = id; encoder = encoder; seqno = 0 }, recipients o target),
          ),
        )
        else (o, (record { packets = 0; recipient_count = 0 }, none))

module _ (c : OverlayCrypto) {E : Type 0} (e : EncoderEngine E) where
  pub prepare_fec_broadcast :
      OutgoingFecTransfer E
      → ℕ
      → ℕ
      → OutgoingFecTransfer E × Result OutgoingTransferError OverlayBroadcastFec
  prepare_fec_broadcast t key date = elim (encode e t.encoder t.seqno) [
    | err x ↦ (t, err x)
    | ok (encoder, p) ↦ (
      record t { encoder = encoder; seqno = add32 p.symbol_id 1 },
      ok (record {
        src = c.as_tl (c.full_id key);
        data_hash = t.broadcast_id;
        data_size = encoder.params.total_len;
        flags = broadcast_flag_any_sender;
        bytes = p.bytes;
        seqno = p.symbol_id;
        fec = encoder.params;
        date = date;
        signature = c.sign key (
            make_fec_part_to_sign c t.broadcast_id encoder.params.total_len date
              broadcast_flag_any_sender encoder.params p.bytes p.symbol_id none);
      }),
    )
  ]

  -- The inner loop of the sender's task: what it sends, the transfer after it, and whether the
  -- outer loop ends. `date` is the clock, read where so many rounds are left.
  pub send_wave :
      ℕ
      → (ℕ → ℕ)
      → OutgoingFecTransfer E
      → ℕ
      → ℕ
      → List OverlayBroadcastFec × (OutgoingFecTransfer E × Bool)
  send_wave zero date t key packets = ([], (t, false))
  send_wave (suc n) date t key packets =
      let (t', outcome) = prepare_fec_broadcast t key (date n) in
      let (sent, after) = send_wave n date t' key packets in
      elim outcome [
        | err _ ↦ ([], (t, true))
        | ok b ↦ if ltb packets t'.seqno then (b ∷ [], (t', true)) else (b ∷ sent, after)
      ]

  -- The outer loop; `none` is a loop that has not ended.
  pub send_waves :
      ℕ → ℕ → (ℕ → ℕ → ℕ) → OutgoingFecTransfer E → ℕ → ℕ → Option (List (List OverlayBroadcastFec))
  send_waves zero wave_len date t key packets = none
  send_waves (suc n) wave_len date t key packets =
      let (sent, (t', ends)) = send_wave wave_len (date n) t key packets in
      let rest = send_waves n wave_len date t' key packets in
      if leb t.seqno packets
      then (if ends
          then some (sent ∷ [])
          else elim rest [ none ↦ none | some waves ↦ some (sent ∷ waves) ])
      else some []
