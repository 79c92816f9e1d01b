-- ===== src/Rldp/Incoming/Inv.antt =====
-- The invariant of an incoming transfer, src/rldp/incoming_transfer.rs, and the answers to a part.
use mathlib.Core.Path.{subst}
use tiny_adnl.Prelude.{
  ℕ, ◌≤◌, ◌<◌, ◌≡◌, refl, Option, none, some, List, ltb, ◌==◌, length, arith, length-append,
  Option-cases, Bool-cases, inl, inr,
}
use tiny_adnl.Rldp.Incoming.{
  DecoderEngine, RaptorQDecoder, MessagePart, IncomingTransfer, new, check_total_size, with_params,
  decode_step, part_step, process_chunk,
}

-- No more bytes than announced, and no more announced than allowed.
abbrev pub Sized : ℕ → Option ℕ → ℕ → Type 0
Sized max none bytes = bytes ≡ 0
Sized max (some n) bytes = (n ≤ max) × (bytes ≤ n)

pub record IsValid {D : Type 0} (t : IncomingTransfer D) : Type 0 where
  pub sized : Sized t.max_answer_size t.total_size (length t.bytes)
  pub counted : t.confirm_count < 10

pub new-IsValid : {D : Type 0} (id : List ℕ) (max : ℕ) → IsValid (new {D = D} id max)
unfolding new
new-IsValid id max = record { sized = refl; counted = omega arith }

module _ {D : Type 0} (e : DecoderEngine D) where
  decode_step-IsValid :
      (t : IncomingTransfer D) (n : ℕ) (d : RaptorQDecoder D) (m : MessagePart)
      → t.total_size ≡ some n
      → IsValid t
      → IsValid (decode_step e t n d m).0
  unfolding decode_step
  decode_step-IsValid t n d m size v =
      let sz : (n ≤ t.max_answer_size) × (length t.bytes ≤ n) =
        subst (λ o. Sized t.max_answer_size o (length t.bytes)) size v.sized in
      elim (Option-cases (e.feed d.engine m.seqno m.bytes).1) [
        | inl undecoded ↦ ground arith
        | inr (bytes, decoded) ↦ ground (arith, length-append t.bytes bytes)
      ]

  part_step-IsValid :
      (t : IncomingTransfer D) (n : ℕ) (m : MessagePart)
      → t.total_size ≡ some n
      → IsValid t
      → IsValid (part_step e t n m).0
  unfolding part_step
  part_step-IsValid t n m size v = elim (Option-cases t.decoder) [
    | inl fresh ↦ ground (arith, decode_step-IsValid t n (with_params e m.fec_type) m size v)
    | inr (d, running) ↦ ground (arith, decode_step-IsValid t n d m size v)
  ]

  abbrev announced : IncomingTransfer D → ℕ → IncomingTransfer D
  announced t n = record t { total_size = some n }

  announced-IsValid :
      (t : IncomingTransfer D) (n : ℕ)
      → n ≤ t.max_answer_size
      → length t.bytes ≤ n
      → IsValid t
      → IsValid (announced t n)
  announced-IsValid t n h k v = record { sized = (h, k); counted = v.counted }

  -- Whatever a peer sends and whatever the decoder makes of it, a transfer never holds more bytes
  -- than were announced, never accepts an announcement above the limit, and counts less than ten
  -- undecoded packets.
  pub process_chunk-IsValid :
      (t : IncomingTransfer D) (m : MessagePart) → IsValid t → IsValid (process_chunk e t m).0
  unfolding process_chunk check_total_size
  process_chunk-IsValid t m v = elim (Option-cases t.total_size) [
    | inl first ↦
        let empty : length t.bytes ≡ 0 =
          subst (λ o. Sized t.max_answer_size o (length t.bytes)) first v.sized in
        elim (Bool-cases (ltb t.max_answer_size m.total_size)) [
          | inl big ↦ rw (first, process_chunk, check_total_size) (rw big v)
          | inr fits ↦
              rw (first, process_chunk, check_total_size)
                (rw fits (
                  part_step-IsValid (announced t m.total_size) m.total_size m refl
                    (announced-IsValid t m.total_size (ground arith) (omega arith) v)))
        ]
    | inr (n, known) ↦
        let sz : (n ≤ t.max_answer_size) × (length t.bytes ≤ n) =
          subst (λ o. Sized t.max_answer_size o (length t.bytes)) known v.sized in
        elim (Bool-cases (n == m.total_size)) [
          | inl same ↦
              rw (known, process_chunk, check_total_size)
                (rw same
                  (part_step-IsValid (announced t n) n m refl (announced-IsValid t n sz.0 sz.1 v)))
          | inr other ↦ rw (known, process_chunk, check_total_size) (rw other v)
        ]
  ]
