-- ===== src/Adnl/Sender/Messages/Numbers.antt =====
-- The numbers of the packets that a node sends, src/adnl/node/sender.rs.
use tiny_adnl.Prelude.{
  ℕ, ◌+◌, ◌^◌, ◌<◌, ◌≡◌, ◌⊎◌, ◌∙◌, not, refl, ap, Bool, true, false, List, [], ◌∷◌, if◌then◌else◌,
  length, arith, Bool-cases, inl, inr,
}
use tiny_adnl.Util.PacketsHistory.{bump_seqno}
use tiny_adnl.Util.PacketsHistory.Start.{count_up}
use tiny_adnl.Adnl.Packet.{OutgoingMessages}
use tiny_adnl.Adnl.Peer.{Peer, history}
use tiny_adnl.Adnl.Receiver.{set_history}
use tiny_adnl.Adnl.Node.{Node}
use tiny_adnl.Adnl.Sender.Messages.{
  MessageSigner, SentPacket, use_priority, send_packet, send_packets,
}

-- The numbers of the packets of one side.
abbrev pub numbers_of : Bool → List SentPacket → List ℕ
numbers_of true [] = []
numbers_of true (p ∷ ps) = if p.priority then p.seqno ∷ numbers_of true ps else numbers_of true ps
numbers_of false [] = []
numbers_of false (p ∷ ps) =
    if p.priority then numbers_of false ps else p.seqno ∷ numbers_of false ps

module _ (n : Node) (full_id : ℕ → ℕ) (now : ℕ) (signer : MessageSigner) where
  -- The counter of a side after one packet.
  send_packet-seqno :
      (peer : Peer) (m : OutgoingMessages) (side : Bool)
      → (history peer.sender_state side).seqno + 1 < 2 ^ 64
      → ((use_priority peer signer ≡ side)
          × ((send_packet n full_id now peer signer m).1.seqno
              ≡ (history peer.sender_state side).seqno + 1)
          × ((history (send_packet n full_id now peer signer m).0.sender_state side).seqno
              ≡ (history peer.sender_state side).seqno + 1))
        ⊎ ((use_priority peer signer ≡ not side)
            × ((history (send_packet n full_id now peer signer m).0.sender_state side).seqno
                ≡ (history peer.sender_state side).seqno))
  unfolding send_packet bump_seqno set_history history
  send_packet-seqno peer m true small = elim (Bool-cases (use_priority peer signer)) [
    | inl p ↦ inl (p, rw (send_packet, p) (omega arith), rw (send_packet, p) (omega arith))
    | inr p ↦ inr (p, rw (send_packet, p) refl)
  ]
  send_packet-seqno peer m false small = elim (Bool-cases (use_priority peer signer)) [
    | inr p ↦ inl (p, rw (send_packet, p) (omega arith), rw (send_packet, p) (omega arith))
    | inl p ↦ inr (p, rw (send_packet, p) refl)
  ]

  send_packet-priority :
      (peer : Peer) (m : OutgoingMessages)
      → (send_packet n full_id now peer signer m).1.priority ≡ use_priority peer signer
  unfolding send_packet
  send_packet-priority peer m = refl

  numbers_of-same :
      (side : Bool) (p : SentPacket) (ps : List SentPacket)
      → p.priority ≡ side
      → numbers_of side (p ∷ ps) ≡ p.seqno ∷ numbers_of side ps
  numbers_of-same true p ps e = rw e refl
  numbers_of-same false p ps e = rw e refl

  numbers_of-other :
      (side : Bool) (p : SentPacket) (ps : List SentPacket)
      → p.priority ≡ not side
      → numbers_of side (p ∷ ps) ≡ numbers_of side ps
  numbers_of-other true p ps e = rw e refl
  numbers_of-other false p ps e = rw e refl

  -- The packets of a side are numbered one by one from the side's counter, whichever of them go by
  -- the other side, as long as the counter does not wrap around.
  pub send_packets-count_up :
      (peer : Peer) (ms : List OutgoingMessages) (side : Bool)
      → (history peer.sender_state side).seqno + length ms < 2 ^ 64
      → numbers_of side (send_packets n full_id now peer signer ms).1
        ≡ count_up
            (length (numbers_of side (send_packets n full_id now peer signer ms).1))
            (history peer.sender_state side).seqno
  unfolding send_packets
  send_packets-count_up peer [] true small = refl
  send_packets-count_up peer [] false small = refl
  send_packets-count_up peer (m ∷ ms) side small =
      let peer' = (send_packet n full_id now peer signer m).0 in
      let p = (send_packet n full_id now peer signer m).1 in
      let ps = (send_packets n full_id now peer' signer ms).1 in
      elim (send_packet-seqno peer m side (omega arith)) [
        | inl (by, num, next) ↦
            let e = numbers_of-same side p ps (send_packet-priority peer m ∙ by) in
            let ih = send_packets-count_up peer' ms side (rw next (omega arith)) in
            rw e (
              ap (λ k. k ∷ numbers_of side ps) num
              ∙ ap (◌∷◌ ((history peer.sender_state side).seqno + 1))
                  (ih ∙ ap (count_up (length (numbers_of side ps))) next))
        | inr (by, next) ↦
            let e = numbers_of-other side p ps (send_packet-priority peer m ∙ by) in
            let ih = send_packets-count_up peer' ms side (rw next (omega arith)) in
            rw e (rw next at ih)
      ]
