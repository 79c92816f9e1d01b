-- ===== src/Overlay/Fec/Tests.antt =====
-- A broadcast of one part at a concrete overlay, src/overlay/overlay.rs.
use tiny_adnl.Prelude.Bytes.{add32}
use tiny_adnl.Prelude.{
  ℕ, ◌≡◌, ◌⊎◌, refl, false, some, Result, ok, ℕ_discrete, List, [], ◌∷◌, ◌++◌, replicate,
}
use tiny_adnl.Adnl.PeersSet.Sample.{choose_first}
use tiny_adnl.Util.PacketsHistory.{
  for_recv, deliver_packet, deliver_recv, deliver_in_window, publish,
}
use tiny_adnl.Prelude.Bytes
use tiny_adnl.Util.PacketsHistory.Window.{receiver}
use tiny_adnl.Overlay.Defs.{
  OverlayError, OverlayBroadcastFec, BroadcastFec, IncomingFecTransfer, incoming, Overlay,
  put_broadcast,
}
use tiny_adnl.Overlay.Broadcasts.{
  is_broadcast_outdated, make_fec_part_to_sign, has_any_sender, to_le_bytes, source_bytes,
}
use tiny_adnl.Adnl.PeersSet.Choose.{get_random_peers}
use tiny_adnl.Rldp.Compression.{decompress, last?}
use tiny_adnl.Rldp.Incoming.{with_params, decode}
use tiny_adnl.Overlay.Peers.{new_overlay}
use tiny_adnl.Overlay.Gc.Reach.{Reach, started, received_part}
use tiny_adnl.Overlay.Fec.{
  new_transfer, spawn_fec_transfer_receiver, to_message, deliver_fec, receive_fec_broadcast,
  transfer_task, process_fec_broadcast, check_decoded,
}
use tiny_adnl.Overlay.Fec.Ended.{Later}
use tiny_adnl.Overlay.Fec.Delivered.{IsSigned, transfer_task-delivers}
use tiny_adnl.Overlay.Sample.{toy, stored, four_bytes, one_packet, options, fec}

abbrev begun : Overlay (List ℕ)
begun = new_overlay choose_first 5 77 [] options

-- All the data in one part, with the signature of the key 5.
abbrev whole_part : OverlayBroadcastFec
whole_part = record {
  src = 5;
  data_hash = 29;
  data_size = 4;
  flags = 1;
  bytes = 1 ∷ 2 ∷ 3 ∷ 4 ∷ [];
  seqno = 0;
  fec = fec;
  date = 100;
  signature = replicate 64 88;
}

abbrev waiting : IncomingFecTransfer (List ℕ)
waiting = record {
  completed = false;
  history = receiver (0 ∷ 0 ∷ 0 ∷ 0 ∷ 1 ∷ replicate 3 0) 0;
  queue = to_message toy four_bytes stored 5 whole_part ∷ [];
  source = 1005;
  updated_at = 120;
  decoder = record { engine = []; params = fec; seqno = 0 };
  packets = 0;
}

abbrev with_part : Overlay (List ℕ)
with_part = record begun {
  owned_broadcasts =
      put_broadcast
        (put_broadcast begun.owned_broadcasts 29
          (some (incoming (new_transfer toy four_bytes stored fec 1005 120))))
        29 (some (incoming waiting));
  cleanups = 29 ∷ begun.cleanups;
}

abbrev sent_on : Result OverlayError (List ℕ)
sent_on = ok (
    get_random_peers ℕ_discrete choose_first begun.neighbours
      begun.options.secondary_fec_broadcast_target_count (some 9))

taken :
    receive_fec_broadcast toy four_bytes stored choose_first begun 120 9 whole_part
    ≡ some (with_part, sent_on)
unfolding receive_fec_broadcast deliver_fec spawn_fec_transfer_receiver new_transfer to_message
    new_overlay is_broadcast_outdated with_params for_recv deliver_packet deliver_recv
    deliver_in_window publish Bytes.test_bit Bytes.set_bit
taken = refl

reached : Reach toy stored choose_first four_bytes one_packet begun with_part
reached = received_part 120 9 whole_part sent_on taken started

transfer_task-delivers_example :
    ((transfer_task toy four_bytes stored with_part 29 waiting).received_broadcasts
      ≡ with_part.received_broadcasts)
    ⊎ ((m : BroadcastFec) × (rest : List BroadcastFec) × (bytes : List ℕ) × (waiting.queue
          ≡ m ∷ rest)
        × (toy.compute_short_id m.node_id ≡ waiting.source)
        × IsSigned toy four_bytes stored choose_first m
        × (toy.sha256 bytes ≡ 29)
        × ((transfer_task toy four_bytes stored with_part 29 waiting).received_broadcasts
            ≡ with_part.received_broadcasts
              ++ (record { packets = add32 waiting.packets 1; bytes = bytes; from = waiting.source }
                  ∷ []))
        × ((later : Overlay (List ℕ))
            → Later toy four_bytes stored choose_first 29
                (transfer_task toy four_bytes stored with_part 29 waiting)
                later
            → later.received_broadcasts
              ≡ (transfer_task toy four_bytes stored with_part 29 waiting).received_broadcasts))
transfer_task-delivers_example =
    transfer_task-delivers toy four_bytes stored choose_first one_packet 5 77 [] options with_part
      29 waiting reached refl

-- The part is delivered.
whole :
    (transfer_task toy four_bytes stored with_part 29 waiting).received_broadcasts
    ≡ with_part.received_broadcasts
      ++ (record { packets = 1; bytes = 1 ∷ 2 ∷ 3 ∷ 4 ∷ []; from = 1005 } ∷ [])
unfolding transfer_task process_fec_broadcast to_message check_decoded decode decompress last?
    make_fec_part_to_sign has_any_sender to_le_bytes source_bytes new_overlay with_params
whole = refl
