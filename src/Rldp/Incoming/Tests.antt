-- ===== src/Rldp/Incoming/Tests.antt =====
-- Runs of src/rldp/incoming_transfer.rs, and the theorems at concrete messages.
use tiny_adnl.Prelude.{
  ℕ, ◌≡◌, refl, none, some, List, [], ◌∷◌, ◌++◌, if◌then◌else◌, leb, length, arith,
}
use tiny_adnl.Rldp.Incoming.{
  FecType, DecoderEngine, RaptorQDecoder, MessagePart, complete, IncomingTransfer, check_total_size,
  with_params, decode, decode_step, part_step, process_chunk, is_whole, receive,
}
use tiny_adnl.Rldp.Incoming.Inv.{IsValid}
use tiny_adnl.Rldp.Incoming.Receive.{Received, receive-Received}

-- A decoder that is done when it has four bytes.
abbrev four_bytes : DecoderEngine (List ℕ)
four_bytes = record {
  start = λ n size. [];
  feed = λ d seqno bytes.
      (d ++ bytes, if leb 4 (length (d ++ bytes)) then some (d ++ bytes) else none);
}

abbrev fec : FecType
fec = record { total_len = 4; packet_len = 2; packet_count = 2 }

abbrev packet : ℕ → ℕ → List ℕ → MessagePart
packet part seqno bytes = record {
  fec_type = fec;
  part = part;
  total_size = 8;
  seqno = seqno;
  bytes = bytes;
}

abbrev fresh : IncomingTransfer (List ℕ)
fresh = record {
  transfer_id = 7 ∷ [];
  max_answer_size = 100;
  confirm_count = 0;
  bytes = [];
  decoder = none;
  part = 0;
  total_size = none;
}

abbrev two_parts : List MessagePart
two_parts =
    packet 0 0 (1 ∷ 2 ∷ [])
    ∷ packet 0 1 (3 ∷ 4 ∷ [])
    ∷ packet 0 2 (9 ∷ [])
    ∷ packet 1 0 (5 ∷ 6 ∷ [])
    ∷ packet 1 1 (7 ∷ 8 ∷ [])
    ∷ []

two_parts_bytes : (receive four_bytes fresh two_parts).0.bytes ≡ 1 ∷ 2 ∷ 3 ∷ 4 ∷ 5 ∷ 6 ∷ 7 ∷ 8 ∷ []
unfolding receive process_chunk check_total_size part_step decode_step decode with_params is_whole
two_parts_bytes = refl

-- The third packet belongs to a part that is complete by then, and is answered again.
two_parts_replies :
    (receive four_bytes fresh two_parts).1
    ≡ complete (7 ∷ []) 0 ∷ complete (7 ∷ []) 0 ∷ complete (7 ∷ []) 1 ∷ []
unfolding receive process_chunk check_total_size part_step decode_step decode with_params is_whole
two_parts_replies = refl

fresh-IsValid : IsValid fresh
fresh-IsValid = record { sized = refl; counted = omega arith }

receive-Received_example : Received four_bytes fresh two_parts
receive-Received_example = receive-Received four_bytes fresh two_parts fresh-IsValid

abbrev started : RaptorQDecoder (List ℕ)
started = record { engine = []; params = fec; seqno = 0 }
