-- ===== src/Rldp/Outgoing/Tests.antt =====
-- Runs of src/rldp/outgoing_transfer.rs, and the theorems at a concrete transfer.
use tiny_adnl.Prelude.{ℕ, refl, some, List, [], ◌∷◌, arith}
use tiny_adnl.Rldp.Outgoing.{EncoderEngine, OutgoingTransfer, new}
use tiny_adnl.Rldp.Outgoing.Window.{
  InWindow, here, next, confirmed, on_confirm, new-InWindow, Reach-InWindow,
}

-- One block with the data as its one packet.
abbrev one_packet : EncoderEngine (List ℕ)
one_packet = record {
  start = λ bytes. bytes;
  blocks = λ bytes. (record { symbol_id = 0; bytes = bytes } ∷ []) ∷ [];
  repair = λ bytes index seqno. some (record { symbol_id = seqno; bytes = bytes });
}

abbrev small : OutgoingTransfer (List ℕ)
small = new (1 ∷ 2 ∷ []) (7 ∷ [])

Reach-InWindow_example : InWindow (on_confirm small 0 5)
Reach-InWindow_example =
    Reach-InWindow one_packet (new-InWindow (1 ∷ 2 ∷ []) (7 ∷ []))
      (next here (confirmed 0 5 (omega arith) refl))
