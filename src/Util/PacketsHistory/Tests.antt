-- ===== src/Util/PacketsHistory/Tests.antt =====
-- Runs of src/util/packets_history.rs, and the theorems at concrete packets.
use tiny_adnl.Prelude.Bytes.{test_bit, set_bit}
use tiny_adnl.Prelude.{
  ℕ, ◌≡◌, refl, Bool, true, false, Option, some, List, [], ◌∷◌, replicate, arith,
}
use tiny_adnl.Util.PacketsHistory.{
  PacketsHistory, publish, for_recv, deliver_in_window, deliver_beyond, deliver_recv,
  deliver_packet,
}
use tiny_adnl.Util.PacketsHistory.Window.{
  receiver, seen, seen_after, last_after, deliver_all, first_seen, deliver_all-first_seen,
}
use tiny_adnl.Util.PacketsHistory.Replay.{deliver_all-replayed}

abbrev packets : List ℕ
packets = 3 ∷ 70 ∷ 3 ∷ 255 ∷ 70 ∷ []

abbrev words : List ℕ
words = replicate 8 0

answers_of : Option (List Bool × PacketsHistory) → List Bool
answers_of o = elim o [ some (a, _) ↦ a | _ ↦ [] ]

-- A repetition is refused among the first 256 numbers, and accepted beyond them.
repetitions :
    (answers_of (deliver_all for_recv packets) ≡ true ∷ true ∷ false ∷ true ∷ false ∷ [])
    × (answers_of (deliver_all for_recv (300 ∷ 300 ∷ 5 ∷ 300 ∷ 5 ∷ []))
        ≡ true ∷ true ∷ true ∷ true ∷ true ∷ [])
unfolding answers_of deliver_all deliver_packet deliver_recv deliver_in_window deliver_beyond
    publish for_recv test_bit set_bit
repetitions = (refl, refl)

deliver_all-first_seen_example :
    deliver_all (receiver words 7) packets
    ≡ some (
      first_seen (seen words) packets,
      receiver (seen_after words packets) (last_after words 7 packets),
    )
deliver_all-first_seen_example = deliver_all-first_seen words 7 packets refl (omega arith)

deliver_all-replayed_example :
    (h' : PacketsHistory) × (deliver_all (receiver words 0) (300 ∷ 300 ∷ 5 ∷ [])
      ≡ some (true ∷ true ∷ true ∷ [], h'))
deliver_all-replayed_example = deliver_all-replayed words 0 300 5 refl (omega arith) (omega arith)
