-- ===== src/Adnl/Sender/Messages/Signer.antt =====
-- How the packets of a message are protected, src/adnl/node/sender.rs.
use tiny_adnl.Prelude.{ℕ, ◌≡◌, ◌⊎◌, true, false, Option, none, some, List, [], ◌∷◌}
use tiny_adnl.Adnl.Peer.{Peer}
use tiny_adnl.Adnl.Channel.{Channel}
use tiny_adnl.Adnl.Packet.{ReinitDates, OutgoingMessages}
use tiny_adnl.Adnl.Node.{Node}
use tiny_adnl.Adnl.Sender.Messages.Carried.{Carried, CarriedWith}
use tiny_adnl.Adnl.Sender.Messages.{
  AdnlMessage, answer_message, query_message, custom_message, confirm_message, create_message,
  part_message, reinit_message, nop_message, SentPacket, channel_of,
}

-- A packet of a handshake names its sender's key, is signed, has the dates, and goes by the ordinary
-- side.
pub record IsHandshake (full : ℕ) (p : SentPacket) : Type 0 where
  pub named : p.from ≡ some full
  pub signed : p.is_signed ≡ true
  pub dated : (d : ReinitDates) × (p.reinit_dates ≡ some d)
  pub ordinary : p.priority ≡ false

-- A packet of a channel names no sender, which its receiver would refuse.
pub record IsByChannel (p : SentPacket) : Type 0 where
  pub unnamed : p.from ≡ none
  pub unsigned : p.is_signed ≡ false
  pub undated : p.reinit_dates ≡ none

abbrev pub Every : (SentPacket → Type 0) → List SentPacket → Type 0
Every P [] = Unit
Every P (p ∷ ps) = P p × Every P ps

abbrev pub messages_of : List SentPacket → List OutgoingMessages
messages_of [] = []
messages_of (p ∷ ps) = p.messages ∷ messages_of ps

-- The kinds of message that are sent by themselves; the others are made by the node.
abbrev pub IsSendable : AdnlMessage → Type 0
IsSendable (answer_message id bytes) = Unit
IsSendable (query_message id bytes) = Unit
IsSendable (custom_message bytes) = Unit
IsSendable (confirm_message key peer_key date) = Unit
IsSendable nop_message = Unit
IsSendable (create_message key date) = ⊥
IsSendable (part_message hash total offset bytes) = ⊥
IsSendable (reinit_message date) = ⊥

-- The message that goes with a handshake: it creates a channel where there is none, and confirms one
-- that is not ready, with the peer's key and date of it. The number is its size.
abbrev pub Introduces : ℕ → ℕ → Option Channel → ℕ → AdnlMessage → Type 0
Introduces key now none extra additional = (extra ≡ 40) × (additional ≡ create_message key now)
Introduces key now (some ch) extra additional =
    (ch.ready ≡ false)
    × (extra ≡ 72)
    × (additional ≡ confirm_message key ch.peer_channel_public_key ch.peer_channel_date)

module _ (write : AdnlMessage → List ℕ) (digest : List ℕ → ℕ) where
  module _ (keys : ℕ → Option ℕ) (full_id public_key : ℕ → ℕ) where
    -- Each packet of the message goes through the channel, if there is one that is ready; else each
    -- is a handshake's, and the first has the message that creates or confirms the channel in front.
    abbrev pub SentBy : Node → ℕ → ℕ → Peer → ℕ → ℕ → AdnlMessage → List SentPacket → Type 0
    SentBy n now peer_id peer key size message packets =
        ((ch : Channel) × (channel_of n peer_id ≡ some ch)
          × (ch.ready ≡ true)
          × Every IsByChannel packets
          × Carried write digest size message (messages_of packets))
        ⊎ ((extra : ℕ) × (additional : AdnlMessage) × Introduces (public_key peer.channel_key) now
              (channel_of n peer_id) extra additional
            × Every (IsHandshake (full_id key)) packets
            × CarriedWith write digest extra additional size message (messages_of packets))
