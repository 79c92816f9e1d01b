-- ===== src/Rldp/Outgoing.antt =====
-- src/rldp/outgoing_transfer.rs and src/rldp/encoder.rs: a transfer that is sent in parts. The
-- RaptorQ encoder is a parameter. The state that the sender shares with the receiver of
-- confirmations is a record that is passed on.
pub mod Window
pub mod Slices
mod Tests
use mathlib.Core.List.{reverse}
use tiny_adnl.Prelude.Bytes.{add32, sub32}
use tiny_adnl.Prelude.{
  ℕ, ◌+◌, ◌-◌, ◌*◌, ◌%◌, ◌^◌, Bool, true, false, Option, none, some, Result, ok, err, List, [], ◌∷◌,
  ◌++◌, if◌then◌else◌, ltb, leb, ◌==◌, ◌&&◌, length, min, max, take, drop,
}
use tiny_adnl.Rldp.Incoming.{FecType}

abbrev pub window : ℕ
window = 1000

abbrev pub slice_len : ℕ
slice_len = 2000000

abbrev pub max_transmission_unit : ℕ
max_transmission_unit = 768

-- `EncodingPacket`, split: the id of the symbol and the bytes.
pub record Packet : Type 0 where
  pub symbol_id : ℕ
  pub bytes : List ℕ

-- The encoder of the crate `everscale_raptorq`: the source packets of each block, and a repair
-- packet of a block.
pub record EncoderEngine (E : Type 0) : Type 0 where
  pub start : List ℕ → E
  pub blocks : E → List (List Packet)
  pub repair : E → ℕ → ℕ → Option Packet

-- The source packets are kept from the end of the vector, where `pop` takes them.
pub record RaptorQEncoder (E : Type 0) : Type 0 where
  pub engine : E
  pub params : FecType
  pub source_packets : List Packet
  pub encoder_index : ℕ

pub data OutgoingTransferError : Type 0 where
  failed_to_encode encoder_is_not_ready part_mismatch : OutgoingTransferError

-- The blocks' packets, each block backwards.
pub all_backwards : List (List Packet) → List Packet
all_backwards [] = []
all_backwards (b ∷ bs) = reverse b ++ all_backwards bs

pub record OutgoingTransferState : Type 0 where
  pub part : ℕ
  pub has_reply : Bool
  pub seqno_out : ℕ
  pub seqno_in : ℕ

pub fresh_state : OutgoingTransferState
fresh_state = record { part = 0; has_reply = false; seqno_out = 0; seqno_in = 0 }

-- `compare_exchange(part - 1, part)`
pub set_part : OutgoingTransferState → ℕ → OutgoingTransferState
set_part s part = if s.part == sub32 part 1 then record s { part = part } else s

pub set_reply : OutgoingTransferState → OutgoingTransferState
set_reply s = record s { has_reply = true }

pub set_seqno_out : OutgoingTransferState → ℕ → OutgoingTransferState
set_seqno_out s seqno = record s { seqno_out = max s.seqno_out seqno }

pub set_seqno_in : OutgoingTransferState → ℕ → OutgoingTransferState
set_seqno_in s seqno =
    if ltb s.seqno_out seqno then s else record s { seqno_in = max s.seqno_in seqno }

pub record OutgoingTransfer (E : Type 0) : Type 0 where
  pub transfer_id : List ℕ
  pub bytes : List ℕ
  pub current_message_part : ℕ
  pub encoder : Option (RaptorQEncoder E)
  pub state : OutgoingTransferState

pub new : {E : Type 0} → List ℕ → List ℕ → OutgoingTransfer E
unfolding fresh_state
new bytes transfer_id = record {
  transfer_id = transfer_id;
  bytes = bytes;
  current_message_part = 0;
  encoder = none;
  state = fresh_state;
}

-- `proto::rldp::MessagePart::MessagePart`
pub record SentPart : Type 0 where
  pub transfer_id : List ℕ
  pub fec_type : FecType
  pub part : ℕ
  pub total_size : ℕ
  pub seqno : ℕ
  pub bytes : List ℕ

pub is_finished : {E : Type 0} → OutgoingTransfer E → Bool
is_finished t = t.state.has_reply && leb (length t.bytes) ((t.state.part + 1) * slice_len)

pub is_finished_or_next_part :
    {E : Type 0} → OutgoingTransfer E → ℕ → Result OutgoingTransferError Bool
is_finished_or_next_part t part =
    if is_finished t
    then ok true
    else if t.state.part == part
    then ok false
    else if t.state.part == add32 part 1
    then ok true
    else err OutgoingTransferError.part_mismatch

-- `&self.data[processed..processed + chunk_size]`, at a length of the slices
pub slice_of : ℕ → List ℕ → ℕ → List ℕ
slice_of len bytes part = take (min (length bytes - part * len) len) (drop (part * len) bytes)

pub slice : List ℕ → ℕ → List ℕ
slice bytes part = slice_of slice_len bytes part

-- The window test, and the number that is stored.
pub advance : OutgoingTransferState → ℕ → OutgoingTransferState
advance s seqno =
    if leb (sub32 seqno s.seqno_in) window
    then set_seqno_out s (if s.seqno_out == seqno then add32 seqno 1 else seqno)
    else s

module _ {E : Type 0} (e : EncoderEngine E) where
  pub with_data : List ℕ → RaptorQEncoder E
  with_data bytes =
      let packets = all_backwards (e.blocks (e.start bytes)) in
      record {
        engine = e.start bytes;
        params = record {
          total_len = length bytes % 2 ^ 32;
          packet_len = max_transmission_unit;
          packet_count = length packets % 2 ^ 32;
        };
        source_packets = reverse packets;
        encoder_index = 0;
      }

  -- The encoder, the number of the packet and its bytes.
  unfoldable pub encode :
      RaptorQEncoder E → ℕ → Result OutgoingTransferError (RaptorQEncoder E × Packet)
  encode c seqno = elim c.source_packets [
    | p ∷ rest ↦ ok (record c { source_packets = rest }, p)
    | [] ↦ elim (e.repair c.engine c.encoder_index seqno) [
      | none ↦ err OutgoingTransferError.failed_to_encode
      | some p ↦
          ok (record c { encoder_index = (c.encoder_index + 1) % length (e.blocks c.engine) }, p)
    ]
  ]

  -- The number of packets to send, if a part is left.
  pub start_next_part : OutgoingTransfer E → OutgoingTransfer E × Option ℕ
  start_next_part t =
      let encoder = with_data (slice t.bytes t.state.part) in
      let started : OutgoingTransfer E = record t {
        current_message_part = t.state.part;
        encoder = some encoder;
      } in
      if is_finished t
      then (t, none)
      else if leb (length t.bytes) (t.state.part * slice_len)
      then (t, none)
      else (
        started,
        if ltb 0 encoder.params.packet_count then some encoder.params.packet_count else none,
      )

  pub prepare_chunk :
      OutgoingTransfer E → Result OutgoingTransferError (OutgoingTransfer E × SentPart)
  prepare_chunk t = elim t.encoder [
    | none ↦ err OutgoingTransferError.encoder_is_not_ready
    | some c ↦ elim (encode c t.state.seqno_out) [
      | err x ↦ err x
      | ok (c', p) ↦ ok (
        record t { encoder = some c'; state = advance t.state p.symbol_id },
        record {
          transfer_id = t.transfer_id;
          fec_type = c'.params;
          part = t.current_message_part;
          total_size = length t.bytes;
          seqno = p.symbol_id;
          bytes = p.bytes;
        },
      )
    ]
  ]
