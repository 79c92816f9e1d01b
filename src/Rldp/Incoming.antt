-- ===== src/Rldp/Incoming.antt =====
-- src/rldp/incoming_transfer.rs and src/rldp/decoder.rs: a transfer that is received in parts,
-- and the loop of `IncomingContext::receive` in src/rldp/transfers_cache.rs. The RaptorQ decoder
-- is a parameter; what is serialized into the buffer of the transfer is the reply.
pub mod Inv
pub mod Receive
mod Tests
use tiny_adnl.Prelude.Bytes.{add32}
use tiny_adnl.Prelude.{
  ℕ, ◌+◌, ◌%◌, ◌^◌, Bool, true, false, Option, none, some, Result, ok, err, List, [], ◌∷◌, ◌++◌,
  if◌then◌else◌, ltb, leb, ◌==◌, ◌&&◌, length,
}

-- `proto::rldp::RaptorQFecType`
pub record FecType : Type 0 where
  pub total_len : ℕ
  pub packet_len : ℕ
  pub packet_count : ℕ

abbrev pub fec_eq : FecType → FecType → Bool
fec_eq a b =
    a.total_len == b.total_len && (a.packet_len == b.packet_len && a.packet_count == b.packet_count)

-- The decoder of the crate `everscale_raptorq`: made from the length and the packet size.
pub record DecoderEngine (D : Type 0) : Type 0 where
  pub start : ℕ → ℕ → D
  pub feed : D → ℕ → List ℕ → D × Option (List ℕ)

pub record RaptorQDecoder (D : Type 0) : Type 0 where
  pub engine : D
  pub params : FecType
  pub seqno : ℕ

pub record MessagePart : Type 0 where
  pub fec_type : FecType
  pub part : ℕ
  pub total_size : ℕ
  pub seqno : ℕ
  pub bytes : List ℕ

-- The messages that answer a part.
pub data Reply : Type 0 where
  complete : List ℕ → ℕ → Reply
  confirm : List ℕ → ℕ → ℕ → Reply

pub data IncomingTransferError : Type 0 where
  total_size_mismatch packet_parameters_mismatch too_big_transfer_size : IncomingTransferError

pub record IncomingTransfer (D : Type 0) : Type 0 where
  pub transfer_id : List ℕ
  pub max_answer_size : ℕ
  pub confirm_count : ℕ
  pub bytes : List ℕ
  pub decoder : Option (RaptorQDecoder D)
  pub part : ℕ
  pub total_size : Option ℕ

pub new : {D : Type 0} → List ℕ → ℕ → IncomingTransfer D
new transfer_id max_answer_size = record {
  transfer_id = transfer_id;
  max_answer_size = max_answer_size;
  confirm_count = 0;
  bytes = [];
  decoder = none;
  part = 0;
  total_size = none;
}

abbrev pub Step : Type 0 → Type 0
Step D = IncomingTransfer D × Result IncomingTransferError (Option Reply)

-- The size that the first message announces, and that the others must repeat.
pub check_total_size : {D : Type 0} → IncomingTransfer D → ℕ → Result IncomingTransferError ℕ
check_total_size t size = elim t.total_size [
  | some total_size ↦
      if total_size == size then ok total_size else err IncomingTransferError.total_size_mismatch
  | none ↦
      if ltb t.max_answer_size size
      then err IncomingTransferError.too_big_transfer_size
      else ok size
]

module _ {D : Type 0} (e : DecoderEngine D) where
  -- `packet_len as u16`
  unfoldable pub with_params : FecType → RaptorQDecoder D
  with_params params = record {
    engine = e.start params.total_len (params.packet_len % 2 ^ 16);
    params = params;
    seqno = 0;
  }

  unfoldable pub decode : RaptorQDecoder D → ℕ → List ℕ → RaptorQDecoder D × Option (List ℕ)
  decode d seqno bytes =
      let (engine, out) = e.feed d.engine seqno bytes in
      (record d { engine = engine; seqno = seqno }, out)

  -- The last `match`: a decoded part, a confirmation each tenth time, or a count.
  pub decode_step : IncomingTransfer D → ℕ → RaptorQDecoder D → MessagePart → Step D
  unfolding decode
  decode_step t total_size d m = elim (e.feed d.engine m.seqno m.bytes).1 [
    | some bytes ↦
        let d' = (decode d m.seqno m.bytes).0 in
        if ltb total_size (length bytes + length t.bytes)
        then (record t { decoder = some d' }, err IncomingTransferError.too_big_transfer_size)
        else (
          if ltb (length (t.bytes ++ bytes)) total_size
              then record t {
                confirm_count = 0;
                bytes = t.bytes ++ bytes;
                decoder = none;
                part = add32 t.part 1;
              }
              else record t { bytes = t.bytes ++ bytes; decoder = some d' },
          ok (some (complete t.transfer_id m.part)),
        )
    | none ↦
        let d' = (decode d m.seqno m.bytes).0 in
        if t.confirm_count == 9
        then (
          record t { confirm_count = 0; decoder = some d' },
          ok (some (confirm t.transfer_id m.part d'.seqno)),
        )
        else (record t { confirm_count = t.confirm_count + 1; decoder = some d' }, ok none)
  ]

  -- The part of the message against the part that is being received.
  pub part_step : IncomingTransfer D → ℕ → MessagePart → Step D
  part_step t total_size m =
      if ltb m.part t.part
      then (t, ok (some (complete t.transfer_id m.part)))
      else if ltb t.part m.part
      then (t, ok none)
      else elim t.decoder [
        | none ↦ decode_step t total_size (with_params m.fec_type) m
        | some d ↦
            if fec_eq d.params m.fec_type
            then decode_step t total_size d m
            else (t, err IncomingTransferError.packet_parameters_mismatch)
      ]

  pub process_chunk : IncomingTransfer D → MessagePart → Step D
  process_chunk t m = elim (check_total_size t m.total_size) [
    | err x ↦ (t, err x)
    | ok total_size ↦ part_step (record t { total_size = some total_size }) total_size m
  ]

  -- All bytes were received.
  pub is_whole : IncomingTransfer D → Bool
  is_whole t = elim t.total_size [ none ↦ false | some n ↦ leb n (length t.bytes) ]

  abbrev pub reply_of : Result IncomingTransferError (Option Reply) → List Reply
  reply_of (ok (some r)) = r ∷ []
  reply_of (ok none) = []
  reply_of (err x) = []

  -- The loop over the channel, given all that is ever sent to it: the transfer, the replies, and
  -- how often `increase_updates` was called.
  pub receive : IncomingTransfer D → List MessagePart → IncomingTransfer D × List Reply × ℕ
  receive t [] = (t, [], 0)
  receive t (m ∷ ms) =
      let next : IncomingTransfer D × List Reply × ℕ =
        (let (t', replies, updates) = receive (process_chunk t m).0 ms in
          (t', reply_of (process_chunk t m).1 ++ replies, updates + 1)) in
      if is_whole (process_chunk t m).0
      then ((process_chunk t m).0, reply_of (process_chunk t m).1, 1)
      else next
