-- ===== src/Rldp/Cache/Tests.antt =====
-- The theorems on src/rldp/transfers_cache.rs at concrete ids and parts.
use tiny_adnl.Prelude.{ℕ, ◌≡◌, refl, Bool, true, none, some, [], ◌∷◌}
use tiny_adnl.Rldp.Incoming.{MessagePart, Reply}
use tiny_adnl.Rldp.Cache.{Transfers, negate_id}
use tiny_adnl.Rldp.Cache.Queue.{Queued, handle_parts, handle_parts-Queued}

abbrev packet : ℕ → MessagePart
packet seqno = record {
  fec_type = record { total_len = 4; packet_len = 2; packet_count = 2 };
  part = 0;
  total_size = 8;
  seqno = seqno;
  bytes = 1 ∷ 2 ∷ [];
}

abbrev empty : Transfers
empty id = none

abbrev sends_all : Reply → Bool
sends_all reply = true

negated : negate_id (0 ∷ 255 ∷ 1 ∷ []) ≡ 255 ∷ 0 ∷ 254 ∷ []
unfolding negate_id
negated = refl

handle_parts-Queued_example :
    (after : Transfers) × (handle_parts sends_all 1 empty (7 ∷ []) (packet 0 ∷ packet 1 ∷ [])
      ≡ some after)
    × Queued sends_all empty after (7 ∷ []) (packet 0 ∷ packet 1 ∷ [])
handle_parts-Queued_example =
    handle_parts-Queued sends_all 0 empty (7 ∷ []) (packet 0) (packet 1 ∷ []) refl
