-- ===== src/Overlay/Fec/Delivered.antt =====
-- What the task of a transfer delivers, src/overlay/overlay.rs.
use tiny_adnl.Prelude.Bytes.{add32}
use tiny_adnl.Prelude.{
  ℕ, ◌≡◌, ◌⊎◌, ◌∙◌, refl, true, none, some, ok, List, [], ◌∷◌, ◌++◌, if◌then◌else◌, arith,
  List-cases, Bool-cases, Option-cases, inl, inr,
}
use tiny_adnl.Rldp.Compression.{Zstd, decompress}
use tiny_adnl.Rldp.Incoming.{DecoderEngine, RaptorQDecoder, decode}
use tiny_adnl.Adnl.Receiver.Stages.{Result-cases}
use tiny_adnl.Overlay.Peers.{new_overlay}
use tiny_adnl.Overlay.Gc.Reach.{Reach}
use tiny_adnl.Overlay.Fec.Filed.{OfTransfer}
use tiny_adnl.Overlay.Fec.Filed.Reach.{Reach-new-Filed}
use tiny_adnl.Rldp.Outgoing.{EncoderEngine}
use tiny_adnl.Overlay.Defs.{OverlayOptions, incoming, BroadcastFec, IncomingFecTransfer, Overlay}
use tiny_adnl.Overlay.Broadcasts.{OverlayCrypto, make_fec_part_to_sign, has_any_sender}
use tiny_adnl.Overlay.Fec.{check_decoded, process_fec_broadcast, transfer_task}
use tiny_adnl.Overlay.Fec.Ended.{Ended, Later, put_transfer-Ended, Later-Ended}

module _ (c : OverlayCrypto) {D : Type 0} (e : DecoderEngine D) (z : Zstd)
    (choose : List ℕ → ℕ → List ℕ) where
  -- The signature of a message is right.
  abbrev pub IsSigned : BroadcastFec → Type 0
  IsSigned m =
      c.verify m.node_id
        (make_fec_part_to_sign c m.data_hash m.data_size m.date m.flags m.fec_type m.bytes m.seqno
          (if has_any_sender c m.flags then none else some (c.compute_short_id m.node_id)))
        m.signature
      ≡ true

  check_decoded-hash :
      (id size : ℕ) (result bytes : List ℕ)
      → check_decoded c e z id size result ≡ ok (some bytes)
      → c.sha256 bytes ≡ id
  unfolding check_decoded
  check_decoded-hash id size result bytes h = elim (Option-cases (decompress z result)) [
    | inl nothing ↦ ground arith
    | inr (out, made) ↦ ground arith
  ]

  process_fec_broadcast-hash :
      (d : RaptorQDecoder D) (m : BroadcastFec) (bytes : List ℕ)
      → (process_fec_broadcast c e z d m).1 ≡ ok (some bytes)
      → IsSigned m × (c.sha256 bytes ≡ m.data_hash)
  unfolding process_fec_broadcast
  process_fec_broadcast-hash d m bytes h =
      let to_sign =
        make_fec_part_to_sign c m.data_hash m.data_size m.date m.flags m.fec_type m.bytes m.seqno
          (if has_any_sender c m.flags then none else some (c.compute_short_id m.node_id)) in
      elim (Bool-cases (c.verify m.node_id to_sign m.signature)) [
        | inr forged ↦ absurd (ground arith)
        | inl signed ↦ elim (Option-cases (decode e d m.seqno m.bytes).1) [
          | inl part ↦ absurd (ground arith)
          | inr (result, whole) ↦
              (signed, check_decoded-hash m.data_hash m.data_size result bytes (ground arith))
        ]
      ]

  -- In whatever a new overlay comes to, a round of the task of a transfer delivers nothing, or data
  -- with the hash by which the broadcast is known, as the source's whose right signature the message
  -- has that the round takes. Then no part of the broadcast that comes later, and no later round of
  -- this task or of those that clean up, delivers anything until the collector forgets the broadcast.
  pub transfer_task-delivers :
      {E : Type 0} (encoder : EncoderEngine E) (node_key overlay_id : ℕ) (peers : List ℕ)
      (options : OverlayOptions) (o : Overlay D) (id : ℕ) (t : IncomingFecTransfer D)
      → Reach c z choose e encoder (new_overlay choose node_key overlay_id peers options) o
      → o.owned_broadcasts id ≡ some (incoming t)
      → ((transfer_task c e z o id t).received_broadcasts ≡ o.received_broadcasts)
        ⊎ ((m : BroadcastFec) × (rest : List BroadcastFec) × (bytes : List ℕ) × (t.queue ≡ m ∷ rest)
            × (c.compute_short_id m.node_id ≡ t.source)
            × IsSigned m
            × (c.sha256 bytes ≡ id)
            × ((transfer_task c e z o id t).received_broadcasts
                ≡ o.received_broadcasts
                  ++ (record { packets = add32 t.packets 1; bytes = bytes; from = t.source } ∷ []))
            × ((later : Overlay D)
                → Later c e z choose id (transfer_task c e z o id t) later
                → later.received_broadcasts ≡ (transfer_task c e z o id t).received_broadcasts))
  unfolding transfer_task
  transfer_task-delivers encoder node_key overlay_id peers options o id t r0 known =
      elim (List-cases t.queue) [
        | inl q ↦ inl (rw q refl)
        | inr (m, rest, q) ↦ elim (Bool-cases t.completed) [
          | inl done ↦ inl (rw (q, done) refl)
          | inr going ↦ elim (Result-cases (process_fec_broadcast c e z t.decoder m).1) [
            | inl (x, r) ↦ inl (rw (q, going, r) refl)
            | inr (none, r) ↦ inl (rw (q, going, r) refl)
            | inr (some bytes, r) ↦
                let filed : OfTransfer c id t.source (m ∷ rest) = rw q at (
                  Reach-new-Filed c z choose e encoder node_key overlay_id peers options o r0 id t
                    known) in
                let (signed, hash) = process_fec_broadcast-hash t.decoder m bytes r in
                let ended : Ended c e z choose id (transfer_task c e z o id t) =
                  rw (q, going, r) (put_transfer-Ended c e z choose _ id _ refl) in
                inr (
                  m,
                  rest,
                  bytes,
                  q,
                  filed.1,
                  signed,
                  hash ∙ filed.0,
                  rw (q, going, r) refl,
                  λ later l. (Later-Ended c e z choose ended l).1,
                )
          ]
        ]
      ]
