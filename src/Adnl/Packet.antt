-- ===== src/Adnl/Packet.antt =====
-- The packets of src/proto/adnl.rs as the receiver reads them. Keys, short ids and hashes are
-- numbers.
pub mod Signature
mod Tests
use Prim.Native.Nat.{bit_and, bit_or}
use tiny_adnl.Prelude.{
  ℕ, zero, suc, ◌+◌, ◌-◌, ◌/◌, ◌%◌, ◌^◌, Option, none, some, List, [], ◌∷◌, ◌++◌, if◌then◌else◌,
  ltb, ◌&&◌, length, take, drop,
}
use tiny_adnl.Util.AddressList.{AddressList}

pub record ReinitDates : Type 0 where
  pub local : ℕ
  pub target : ℕ

-- Places in the packet are 16-bit numbers.
pub record PacketContentsSignature : Type 0 where
  pub signature : List ℕ
  pub flags_offset : ℕ
  pub signature_start : ℕ
  pub signature_end : ℕ

pub record IncomingPacketContents : Type 0 where
  pub from : Option ℕ
  pub from_short : Option ℕ
  pub address : Option AddressList
  pub seqno : Option ℕ
  pub confirm_seqno : Option ℕ
  pub reinit_dates : Option ReinitDates
  pub signature : Option PacketContentsSignature

-- `packet[i] &= 0xf7`
pub clear_signature_bit : ℕ → List ℕ → List ℕ
clear_signature_bit i [] = []
clear_signature_bit zero (byte ∷ rest) = bit_and byte 247 ∷ rest
clear_signature_bit (suc i) (byte ∷ rest) = byte ∷ clear_signature_bit i rest

-- The packet without its signature, and the signature.
pub extract : PacketContentsSignature → List ℕ → Option (List ℕ × List ℕ)
extract s packet =
    let packet_len = length packet % 2 ^ 16 in
    let flags_offset = (s.flags_offset + 1) % 2 ^ 16 in
    if ltb flags_offset packet_len
      && (ltb s.signature_start s.signature_end && ltb s.signature_end packet_len)
    then (let signature_len = s.signature_end - s.signature_start in
        let remaining = packet_len - s.signature_end in
        let cleared = clear_signature_bit flags_offset packet in
        let moved =
          take s.signature_start cleared
          ++ (take remaining (drop s.signature_end cleared)
              ++ drop (s.signature_start + remaining) cleared) in
        some (take (length packet - signature_len) moved, s.signature))
    else none

-- What is written by the crate tl_proto stands here as its bytes.
pub data OutgoingMessages : Type 0 where
  single pair : List ℕ → OutgoingMessages

pub record OutgoingPacketContents : Type 0 where
  pub rand1 : List ℕ
  pub from : Option (List ℕ)
  pub messages : OutgoingMessages
  pub address : List ℕ
  pub seqno : List ℕ
  pub confirm_seqno : List ℕ
  pub reinit_dates : Option (List ℕ)
  pub signature : Option (List ℕ)
  pub rand2 : List ℕ

pub write_u32 : ℕ → List ℕ
write_u32 n = n % 256 ∷ n / 256 % 256 ∷ n / 65536 % 256 ∷ n / 16777216 % 256 ∷ []

pub write_messages : OutgoingMessages → List ℕ
write_messages (single raw) = raw
write_messages (pair raw) = write_u32 2 ++ raw

abbrev pub write_option : Option (List ℕ) → List ℕ
write_option none = []
write_option (some bytes) = bytes

abbrev pub flag : Option (List ℕ) → ℕ → ℕ
flag none bit = 0
flag (some _) bit = bit

abbrev pub messages_flag : OutgoingMessages → ℕ
messages_flag (single _) = 4
messages_flag (pair _) = 8

-- The bits 4, 6 and 7 are always set.
pub flags : OutgoingPacketContents → ℕ
flags p =
    bit_or
      (bit_or (bit_or (bit_or 208 (flag p.from 1)) (messages_flag p.messages))
        (flag p.reinit_dates 1024))
      (flag p.signature 2048)

-- What stands between the flags and the signature.
pub write_fields : OutgoingPacketContents → List ℕ
write_fields p =
    write_option p.from
    ++ (write_messages p.messages
        ++ (p.address ++ (p.seqno ++ (p.confirm_seqno ++ write_option p.reinit_dates))))

-- The packet behind the bytes of its constructor.
pub write_packet : List ℕ → OutgoingPacketContents → List ℕ
write_packet tl_id p =
    tl_id
    ++ (p.rand1
        ++ (write_u32 (flags p) ++ (write_fields p ++ (write_option p.signature ++ p.rand2))))
