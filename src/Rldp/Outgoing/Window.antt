-- ===== src/Rldp/Outgoing/Window.antt =====
-- The window of packets that are sent and not confirmed, src/rldp/outgoing_transfer.rs, whatever
-- the order in which the sender and the messages of the peer act on the shared state.
use tiny_adnl.Prelude.Bytes.{add32}
use tiny_adnl.Prelude.{
  ℕ, ◌+◌, ◌^◌, ◌≤◌, ◌<◌, ◌≡◌, ◌≢◌, true, ok, List, if◌then◌else◌, ◌==◌, arith, Option-cases,
  ℕ_discrete, inl, inr, ◌⊎◌,
}
use tiny_adnl.Rldp.Outgoing.{
  OutgoingTransfer, EncoderEngine, SentPart, new, set_part, set_reply, set_seqno_out, set_seqno_in,
  advance, prepare_chunk, start_next_part, encode, is_finished_or_next_part,
}

-- The confirmed number is not above the sent one, and the sent one at most 1001 above it.
pub record InWindow {E : Type 0} (t : OutgoingTransfer E) : Type 0 where
  pub confirmed : t.state.seqno_in ≤ t.state.seqno_out
  pub ahead : t.state.seqno_out ≤ t.state.seqno_in + 1001
  pub small : t.state.seqno_out < 2 ^ 32

-- The `Confirm` branch of `handle_message` on this transfer.
pub on_confirm : {E : Type 0} → OutgoingTransfer E → ℕ → ℕ → OutgoingTransfer E
on_confirm t part seqno =
    if t.state.part == part then record t { state = set_seqno_in t.state seqno } else t

-- The `Complete` branch.
pub on_complete : {E : Type 0} → OutgoingTransfer E → ℕ → OutgoingTransfer E
on_complete t part = record t { state = set_part t.state (add32 part 1) }

advance-InWindow :
    {E : Type 0} (t : OutgoingTransfer E) (seqno : ℕ)
    → seqno < 2 ^ 32
    → InWindow t
    → InWindow (record t { state = advance t.state seqno })
unfolding advance set_seqno_out
advance-InWindow t seqno small w = ground arith

module _ {E : Type 0} (e : EncoderEngine E) where
  -- The sender starts a part or prepares a packet; the peer confirms, completes or replies.
  pub data Step (t u : OutgoingTransfer E) : Type 0 where
    started : u ≡ (start_next_part e t).0 → Step t u
    sent : (m : SentPart) → m.seqno < 2 ^ 32 → prepare_chunk e t ≡ ok (u, m) → Step t u
    confirmed : (part seqno : ℕ) → seqno < 2 ^ 32 → u ≡ on_confirm t part seqno → Step t u
    completed : (part : ℕ) → part < 2 ^ 32 → u ≡ on_complete t part → Step t u
    replied : u ≡ record t { state = set_reply t.state } → Step t u

  pub data Reach (t : OutgoingTransfer E) : OutgoingTransfer E → Type 0 where
    here : Reach t t
    next : {u v : OutgoingTransfer E} → Reach t u → Step u v → Reach t v

  started-InWindow : (t : OutgoingTransfer E) → InWindow t → InWindow (start_next_part e t).0
  unfolding start_next_part
  started-InWindow t w = ground arith

  sent-InWindow :
      (t u : OutgoingTransfer E) (m : SentPart)
      → m.seqno < 2 ^ 32
      → prepare_chunk e t ≡ ok (u, m)
      → InWindow t
      → InWindow u
  unfolding prepare_chunk encode
  sent-InWindow t u m small h w = elim (Option-cases t.encoder) [
    | inl none_yet ↦ absurd (ground arith)
    | inr (c, ready) ↦ ground (arith, advance-InWindow t m.seqno small w)
  ]

  Step-InWindow : {t u : OutgoingTransfer E} → Step t u → InWindow t → InWindow u
  unfolding on_confirm on_complete set_part set_seqno_in set_reply
  Step-InWindow {t} {u} (started h) w = ground (arith, started-InWindow t w)
  Step-InWindow {t} {u} (sent m small h) w = sent-InWindow t u m small h w
  Step-InWindow {t} {u} (confirmed part seqno small h) w = ground arith
  Step-InWindow {t} {u} (completed part small h) w = ground arith
  Step-InWindow {t} {u} (replied h) w = ground arith

  -- However the sender, the encoder and the peer act, and in whatever order, no more than 1001
  -- numbers lie between the last confirmed one and the next one to send, and the confirmed number is
  -- never above the one to send.
  pub Reach-InWindow : {t u : OutgoingTransfer E} → InWindow t → Reach t u → InWindow u
  Reach-InWindow w here = w
  Reach-InWindow w (next r s) = Step-InWindow s (Reach-InWindow w r)

pub new-InWindow : {E : Type 0} (bytes id : List ℕ) → InWindow (new {E = E} bytes id)
unfolding new
new-InWindow bytes id = record { confirmed = omega arith; ahead = omega arith; small = omega arith }

-- The sender of a part goes on exactly when the peer completes that part: after `Complete` for
-- the part in progress the loop leaves the part, and after `Complete` for any other part the
-- transfer is as it was.
pub on_complete-is_finished_or_next_part :
    {E : Type 0} (t : OutgoingTransfer E) (part : ℕ)
    → part + 1 < 2 ^ 32
    → ((t.state.part ≡ part) × (is_finished_or_next_part (on_complete t part) part ≡ ok true))
      ⊎ ((t.state.part ≢ part) × (on_complete t part ≡ t))
unfolding on_complete set_part is_finished_or_next_part
on_complete-is_finished_or_next_part t part small = elim (ℕ_discrete t.state.part part) [
  | yes p ↦ inl (p, ground arith)
  | no p ↦ inr (p, ground arith)
]
