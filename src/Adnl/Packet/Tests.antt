-- ===== src/Adnl/Packet/Tests.antt =====
-- A signed packet of src/proto/adnl.rs.
use tiny_adnl.Prelude.{◌≡◌, refl, none, some, [], ◌∷◌, replicate, arith}
use tiny_adnl.Adnl.Packet.{
  PacketContentsSignature, OutgoingPacketContents, single, extract, write_packet, write_fields,
  write_messages,
}
use tiny_adnl.Adnl.Packet.Signature.{signed, unsigned, extract-write_packet}

abbrev packet : OutgoingPacketContents
packet = record {
  rand1 = 3 ∷ 1 ∷ 2 ∷ 3 ∷ [];
  from = some (replicate 36 7);
  messages = single (9 ∷ 9 ∷ 9 ∷ 9 ∷ []);
  address = replicate 24 1;
  seqno = replicate 8 0;
  confirm_seqno = replicate 8 0;
  reinit_dates = none;
  signature = none;
  rand2 = 7 ∷ 1 ∷ 2 ∷ 3 ∷ 4 ∷ 5 ∷ 6 ∷ 7 ∷ [];
}

abbrev places : PacketContentsSignature
places = record {
  signature = replicate 64 5;
  flags_offset = 8;
  signature_start = 92;
  signature_end = 160;
}

extract-write_packet_example :
    extract places (write_packet (1 ∷ 2 ∷ 3 ∷ 4 ∷ []) (signed packet (64 ∷ replicate 67 5)))
    ≡ some (write_packet (1 ∷ 2 ∷ 3 ∷ 4 ∷ []) (unsigned packet), replicate 64 5)
unfolding write_fields write_messages
extract-write_packet_example =
    extract-write_packet (1 ∷ 2 ∷ 3 ∷ 4 ∷ []) packet (64 ∷ replicate 67 5) places refl refl refl
      (omega arith) (omega arith) (omega arith)
