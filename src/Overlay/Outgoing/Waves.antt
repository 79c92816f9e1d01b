-- ===== src/Overlay/Outgoing/Waves.antt =====
-- The waves of a broadcast in parts end, src/overlay/overlay.rs.
use tiny_adnl.Prelude.Bytes.{add32}
use tiny_adnl.Prelude.{
  ℕ, zero, suc, ◌+◌, ◌-◌, ◌^◌, ◌≤◌, ◌<◌, ◌≡◌, refl, ap, Bool, true, false, some, Result, ok, err,
  List, [], ◌∷◌, ltb, leb, length, arith, Bool-cases, Option-cases, List-cases, inl, inr,
}
use tiny_adnl.Rldp.Outgoing.{Packet, EncoderEngine, encode}
use tiny_adnl.Adnl.Receiver.Stages.{Result-cases}
use tiny_adnl.Overlay.Defs.{OverlayBroadcastFec}
use tiny_adnl.Overlay.Broadcasts.{OverlayCrypto}
use tiny_adnl.Overlay.Outgoing.{OutgoingFecTransfer, prepare_fec_broadcast, send_wave, send_waves}

-- Numbers of packets fit into 24 bits, and a repair packet has at least the number that is asked for.
pub record IsRising {E : Type 0} (e : EncoderEngine E) : Type 0 where
  pub rises :
      (engine : E) (block seqno : ℕ) (p : Packet)
      → e.repair engine block seqno ≡ some p
      → (seqno ≤ p.symbol_id) × (p.symbol_id < 2 ^ 24)

abbrev pub AllSmall : List Packet → Type 0
AllSmall [] = Unit
AllSmall (p ∷ ps) = (p.symbol_id < 2 ^ 24) × AllSmall ps

-- How many packets are sent at most.
abbrev pub packets_left : List Packet → ℕ → ℕ → ℕ
packets_left [] seqno packets = packets + 1 - seqno
packets_left (p ∷ ps) seqno packets = length (p ∷ ps) + packets + 1

abbrev pub left : {E : Type 0} → OutgoingFecTransfer E → ℕ → ℕ
left t packets = packets_left t.encoder.source_packets t.seqno packets

abbrev pub total_sent : List (List OverlayBroadcastFec) → ℕ
total_sent [] = 0
total_sent (w ∷ ws) = length w + total_sent ws

is_err : {X A : Type 0} → Result X A → Bool
is_err (err _) = true
is_err (ok _) = false

err-ne-ok : {X A : Type 0} {x : X} {a : A} → ¬ (◌≡◌ {A = Result X A} (err x) (ok a))
unfolding is_err
err-ne-ok e = absurd (ground (arith, ap is_err e))

module _ (c : OverlayCrypto) {E : Type 0} (e : EncoderEngine E) (rising : IsRising e) where
  packets_left-pop :
      (ps : List Packet) (seqno packets : ℕ)
      → packets_left ps seqno packets ≤ length ps + packets + 1
  packets_left-pop [] seqno packets = omega arith
  packets_left-pop (p ∷ ps) seqno packets = omega arith

  prepare_fec_broadcast-left :
      (t : OutgoingFecTransfer E) (key date packets : ℕ)
      → AllSmall t.encoder.source_packets
      → t.seqno ≤ packets
      → (b : OverlayBroadcastFec) → (prepare_fec_broadcast c e t key date).1 ≡ ok b
      → AllSmall (prepare_fec_broadcast c e t key date).0.encoder.source_packets
        × (left (prepare_fec_broadcast c e t key date).0 packets + 1 ≤ left t packets)
  unfolding prepare_fec_broadcast encode
  prepare_fec_broadcast-left t key date packets small h b sent =
      elim (List-cases t.encoder.source_packets) [
        | inr (p, rest, q) ↦
            let all : AllSmall (p ∷ rest) = rw q at small in
            (
              rw (prepare_fec_broadcast, encode, q) all.1,
              rw (prepare_fec_broadcast, encode, q)
                  (omega (arith, packets_left-pop rest (add32 p.symbol_id 1) packets)),
            )
        | inl q ↦ elim (Option-cases (e.repair t.encoder.engine t.encoder.encoder_index t.seqno)) [
          | inl failed ↦ absurd (err-ne-ok (rw (prepare_fec_broadcast, encode, q, failed) at sent))
          | inr (p, made) ↦
              let (up, fits) =
                rising.rises t.encoder.engine t.encoder.encoder_index t.seqno p made in
              (
                rw (prepare_fec_broadcast, encode, q, made, q) tt,
                rw (prepare_fec_broadcast, encode, q, made, q) (omega (arith, up, fits, h)),
              )
        ]
      ]

  -- A wave that does not end the sending sends as many packets as there are rounds, and these are off
  -- what is left.
  send_wave-left :
      (n : ℕ) (date : ℕ → ℕ) (t : OutgoingFecTransfer E) (key packets : ℕ)
      → AllSmall t.encoder.source_packets
      → t.seqno ≤ packets
      → ((send_wave c e n date t key packets).1.1 ≡ false
          → (n + left (send_wave c e n date t key packets).1.0 packets ≤ left t packets)
            × (length (send_wave c e n date t key packets).0 ≡ n)
            × AllSmall (send_wave c e n date t key packets).1.0.encoder.source_packets
            × ((send_wave c e n date t key packets).1.0.seqno ≤ packets))
        × (length (send_wave c e n date t key packets).0 ≤ left t packets)
  unfolding send_wave
  send_wave-left zero date t key packets small h = (λ o. (omega arith, refl, small, h), omega arith)
  send_wave-left (suc n) date t key packets small h =
      let t' = (prepare_fec_broadcast c e t key (date n)).0 in
      elim (Result-cases (prepare_fec_broadcast c e t key (date n)).1) [
        | inl (x, failed) ↦ (
          λ o. absurd (ground (arith, rw (send_wave, failed) at o)),
          rw (send_wave, failed) (omega arith),
        )
        | inr (b, sent) ↦
            let (small', less) = prepare_fec_broadcast-left t key (date n) packets small h b sent in
            elim (Bool-cases (ltb packets t'.seqno)) [
              | inl over ↦ (
                λ o. absurd (ground (arith, rw (send_wave, sent, over) at o)),
                rw (send_wave, sent, over) (omega (arith, less)),
              )
              | inr under ↦
                  let (goes, few) = send_wave-left n date t' key packets small' (ground arith) in
                  (
                    λ o.
                        let (a, l, s, k) = goes (rw (send_wave, sent, under) at o) in
                        rw (send_wave, sent, under)
                          (omega (arith, a, less), omega (arith, l), s, k),
                    rw (send_wave, sent, under) (omega (arith, few, less)),
                  )
            ]
      ]

  send_waves-left :
      (n wave_len : ℕ) (date : ℕ → ℕ → ℕ) (t : OutgoingFecTransfer E) (key packets : ℕ)
      → 1 ≤ wave_len
      → AllSmall t.encoder.source_packets
      → left t packets < n
      → (waves : List (List OverlayBroadcastFec)) × (send_waves c e n wave_len date t key packets
          ≡ some waves)
        × (total_sent waves ≤ left t packets)
  unfolding send_waves
  send_waves-left zero wave_len date t key packets pos small lt = absurd (omega arith)
  send_waves-left (suc n) wave_len date t key packets pos small lt =
      let wave = send_wave c e wave_len (date n) t key packets in
      elim (Bool-cases (leb t.seqno packets)) [
        | inr over ↦ ([], rw (send_waves, over) refl, omega arith)
        | inl under ↦
            let (goes, few) = send_wave-left wave_len (date n) t key packets small (ground arith) in
            elim (Bool-cases wave.1.1) [
              | inl ends ↦ (wave.0 ∷ [], rw (send_waves, under, ends) refl, omega (arith, few))
              | inr on ↦
                  let (a, l, s, k) = goes on in
                  let (waves, done, sum) =
                    send_waves-left n wave_len date wave.1.0 key packets pos s (omega (arith, a)) in
                  (wave.0 ∷ waves, rw (send_waves, under, on, done) refl, omega (arith, a, l, sum))
            ]
      ]

  -- Where a wave has at least one packet, the task that sends a broadcast in parts ends: given fuel
  -- for one wave more than packets can be sent, it has sent no more packets than the encoder has
  -- source packets, and one more than it was to send. The packets' numbers fit into 24 bits, and a
  -- repair packet has at least the number that it is asked for with.
  pub send_waves-ends :
      (wave_len : ℕ) (date : ℕ → ℕ → ℕ) (t : OutgoingFecTransfer E) (key packets : ℕ)
      → 1 ≤ wave_len
      → AllSmall t.encoder.source_packets
      → (waves : List (List OverlayBroadcastFec)) × (send_waves c e
            (length t.encoder.source_packets + packets + 2)
            wave_len
            date
            t
            key
            packets
          ≡ some waves)
        × (total_sent waves ≤ length t.encoder.source_packets + packets + 1)
  send_waves-ends wave_len date t key packets pos small =
      let most = packets_left-pop t.encoder.source_packets t.seqno packets in
      let (waves, done, sum) =
        send_waves-left (length t.encoder.source_packets + packets + 2) wave_len date t key packets
          pos small (omega (arith, most)) in
      (waves, done, omega (arith, most, sum))
