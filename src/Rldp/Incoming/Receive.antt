-- ===== src/Rldp/Incoming/Receive.antt =====
-- What the loop of `IncomingContext::receive` leaves: src/rldp/transfers_cache.rs over
-- src/rldp/incoming_transfer.rs.
use mathlib.Core.Path.{subst}
use mathlib.Core.List.{append-nil}
use tiny_adnl.Prelude.{
  ℕ, zero, suc, ◌+◌, ◌*◌, ◌≤◌, ◌<◌, ◌≡◌, refl, sym, ap, take, ◌++◌, true, false, none, some, ok,
  List, [], ◌∷◌, if◌then◌else◌, ◌==◌, length, arith, Option-cases, Bool-cases, inl, inr, ◌⊎◌,
}
use tiny_adnl.Rldp.Incoming.{
  FecType, DecoderEngine, RaptorQDecoder, MessagePart, Reply, reply_of, confirm, IncomingTransfer,
  check_total_size, decode_step, part_step, process_chunk, is_whole, receive,
}
use tiny_adnl.Rldp.Incoming.Inv.{IsValid, Sized, process_chunk-IsValid}

module _ {D : Type 0} (e : DecoderEngine D) where
  -- The loop keeps the invariant.
  receive-IsValid :
      (t : IncomingTransfer D) (ms : List MessagePart) → IsValid t → IsValid (receive e t ms).0
  unfolding receive
  receive-IsValid t [] v = v
  receive-IsValid t (m ∷ ms) v = elim (Bool-cases (is_whole e (process_chunk e t m).0)) [
    | inl whole ↦ rw whole (process_chunk-IsValid e t m v)
    | inr more ↦
        rw more (receive-IsValid (process_chunk e t m).0 ms (process_chunk-IsValid e t m v))
  ]

  -- A valid transfer that is whole has exactly the bytes that were announced.
  whole_size :
      (t : IncomingTransfer D)
      → IsValid t
      → is_whole e t ≡ true
      → t.total_size ≡ some (length t.bytes)
  unfolding is_whole
  whole_size t v w = elim (Option-cases t.total_size) [
    | inl unknown ↦ ground (arith, unknown)
    | inr (n, known) ↦
        let sz : (n ≤ t.max_answer_size) × (length t.bytes ≤ n) =
          subst (λ o. Sized t.max_answer_size o (length t.bytes)) known v.sized in
        ground (arith, known)
  ]

  -- The transfer after messages that are handled once each, in order, and what they are answered.
  abbrev pub after : IncomingTransfer D → List MessagePart → IncomingTransfer D
  after t [] = t
  after t (m ∷ ms) = after (process_chunk e t m).0 ms

  abbrev pub answers : IncomingTransfer D → List MessagePart → List Reply
  answers t [] = []
  answers t (m ∷ ms) = reply_of e (process_chunk e t m).1 ++ answers (process_chunk e t m).0 ms

  -- The loop has handled the first messages, once each, and gone on only from a transfer that was not
  -- whole. Its end: the announced bytes, no more and no fewer, or the end of the channel.
  pub record Received (t : IncomingTransfer D) (ms : List MessagePart) : Type 0 where
    pub valid : IsValid (receive e t ms).0
    pub handled : (receive e t ms).2 ≤ length ms
    pub state : (receive e t ms).0 ≡ after t (take (receive e t ms).2 ms)
    pub replies : (receive e t ms).1 ≡ answers t (take (receive e t ms).2 ms)
    pub went_on :
        (n : ℕ) → suc n < (receive e t ms).2 → is_whole e (after t (take (suc n) ms)) ≡ false
    pub ended :
        ((receive e t ms).0.total_size ≡ some (length (receive e t ms).0.bytes))
        ⊎ ((receive e t ms).2 ≡ length ms)

  ends :
      (t : IncomingTransfer D) (ms : List MessagePart)
      → IsValid t
      → ((receive e t ms).2 ≤ length ms)
        × (((receive e t ms).0.total_size ≡ some (length (receive e t ms).0.bytes))
            ⊎ ((receive e t ms).2 ≡ length ms))
  unfolding receive
  ends t [] v = (omega arith, inr refl)
  ends t (m ∷ ms) v = elim (Bool-cases (is_whole e (process_chunk e t m).0)) [
    | inl whole ↦ rw whole (omega arith, inl (whole_size _ (process_chunk-IsValid e t m v) whole))
    | inr more ↦
        let rest = ends (process_chunk e t m).0 ms (process_chunk-IsValid e t m v) in
        rw more (
          omega (arith, rest.0),
          elim rest.1 [ inl full ↦ inl full | inr all ↦ inr (omega (arith, all)) ],
        )
  ]

  receive-after :
      (t : IncomingTransfer D) (ms : List MessagePart)
      → ((receive e t ms).0 ≡ after t (take (receive e t ms).2 ms))
        × ((receive e t ms).1 ≡ answers t (take (receive e t ms).2 ms))
  unfolding receive
  receive-after t [] = (refl, refl)
  receive-after t (m ∷ ms) = elim (Bool-cases (is_whole e (process_chunk e t m).0)) [
    | inl whole ↦ rw whole (refl, sym (append-nil _))
    | inr more ↦
        let (s, r) = receive-after (process_chunk e t m).0 ms in
        let u = (receive e (process_chunk e t m).0 ms).2 in
        let one : u + 1 ≡ suc u = omega arith in
        rw (more, one) (s, ap (λ l. reply_of e (process_chunk e t m).1 ++ l) r)
  ]

  receive-went_on :
      (t : IncomingTransfer D) (ms : List MessagePart) (n : ℕ)
      → suc n < (receive e t ms).2
      → is_whole e (after t (take (suc n) ms)) ≡ false
  unfolding receive
  receive-went_on t [] n h = absurd (omega arith)
  receive-went_on t (m ∷ ms) zero h = elim (Bool-cases (is_whole e (process_chunk e t m).0)) [
    | inl whole ↦ absurd (omega (arith, rw whole at h))
    | inr more ↦ more
  ]
  receive-went_on t (m ∷ ms) (suc n) h = elim (Bool-cases (is_whole e (process_chunk e t m).0)) [
    | inl whole ↦ absurd (omega (arith, rw whole at h))
    | inr more ↦ receive-went_on (process_chunk e t m).0 ms n (omega (arith, rw more at h))
  ]

  -- Whatever the messages and the decoder are, the loop keeps the invariant of a valid transfer. It
  -- handles the first messages once each, in order, and calls `increase_updates` once for each of
  -- them; the transfer and the replies are those of these messages. It goes on only while the
  -- transfer is not whole, and stops before the channel ends only with exactly the announced bytes.
  pub receive-Received :
      (t : IncomingTransfer D) (ms : List MessagePart) → IsValid t → Received t ms
  receive-Received t ms v =
      let end = ends t ms v in
      let now = receive-after t ms in
      record {
        valid = receive-IsValid t ms v;
        handled = end.0;
        state = now.0;
        replies = now.1;
        went_on = receive-went_on t ms;
        ended = end.1;
      }

  -- A transfer in the middle of a part.
  abbrev pub running : IncomingTransfer D → ℕ → RaptorQDecoder D → IncomingTransfer D
  running t n d = record t { decoder = some d; total_size = some n }

  -- Messages of that part of which the decoder makes nothing yet.
  abbrev pub Undecoded : ℕ → ℕ → FecType → D → List MessagePart → Type 0
  Undecoded part n fec d [] = Unit
  Undecoded part n fec d (m ∷ ms) =
      (m.part ≡ part)
      × (m.total_size ≡ n)
      × (m.fec_type ≡ fec)
      × ((e.feed d m.seqno m.bytes).1 ≡ none)
      × Undecoded part n fec (e.feed d m.seqno m.bytes).0 ms

  abbrev fed : RaptorQDecoder D → MessagePart → RaptorQDecoder D
  fed d m = record d { engine = (e.feed d.engine m.seqno m.bytes).0; seqno = m.seqno }

  undecoded_step :
      (t : IncomingTransfer D) (n : ℕ) (d : RaptorQDecoder D) (m : MessagePart)
      → m.part ≡ t.part
      → m.total_size ≡ n
      → m.fec_type ≡ d.params
      → (e.feed d.engine m.seqno m.bytes).1 ≡ none
      → process_chunk e (running t n d) m ≡ (
          if t.confirm_count == 9
          then (
            running (record t { confirm_count = 0 }) n (fed d m),
            ok (some (confirm t.transfer_id m.part m.seqno)),
          )
          else (running (record t { confirm_count = t.confirm_count + 1 }) n (fed d m), ok none))
  unfolding process_chunk check_total_size part_step decode_step
  undecoded_step t n d m p s f u = ground (
    arith,
    ap (λ (x : FecType). x.total_len) f,
    ap (λ (x : FecType). x.packet_len) f,
    ap (λ (x : FecType). x.packet_count) f,
  )

  stays_unfinished :
      (t : IncomingTransfer D) (n : ℕ) (d : RaptorQDecoder D)
      → length t.bytes < n
      → is_whole e (running t n d) ≡ false
  unfolding is_whole
  stays_unfinished t n d h = ground arith

  -- While a part is not decoded, exactly each tenth of its packets is confirmed: the replies are
  -- confirmations, and ten for each with the count left over make up the packets.
  pub receive-Undecoded :
      (t : IncomingTransfer D) (n : ℕ) (d : RaptorQDecoder D) (ms : List MessagePart)
      → t.confirm_count < 10
      → length t.bytes < n
      → Undecoded t.part n d.params d.engine ms
      → ((receive e (running t n d) ms).0.confirm_count
            + 10 * length (receive e (running t n d) ms).1
          ≡ t.confirm_count + length ms)
        × ((receive e (running t n d) ms).0.confirm_count < 10)
        × ((receive e (running t n d) ms).0.bytes ≡ t.bytes)
  unfolding receive
  receive-Undecoded t n d [] c h u = (omega arith, c, refl)
  receive-Undecoded t n d (m ∷ ms) c h u = elim (Bool-cases (t.confirm_count == 9)) [
    | inl tenth ↦
        let rest =
          receive-Undecoded (record t { confirm_count = 0 }) n (fed d m) ms (omega arith) h u.4 in
        rw (undecoded_step t n d m u.0 u.1 u.2 u.3, tenth, stays_unfinished)
          (ground (arith, rest.0), rest.1, rest.2)
    | inr not_yet ↦
        let rest =
          receive-Undecoded (record t { confirm_count = t.confirm_count + 1 }) n (fed d m) ms
            (ground arith) h u.4 in
        rw (undecoded_step t n d m u.0 u.1 u.2 u.3, not_yet, stays_unfinished)
          (ground (arith, rest.0), rest.1, rest.2)
  ]
