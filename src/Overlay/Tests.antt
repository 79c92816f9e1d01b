-- ===== src/Overlay/Tests.antt =====
-- The theorems on src/overlay at concrete overlays.
use mathlib.Core.Option.{none-ne-some}
use tiny_adnl.Prelude.{
  ℕ, ◌+◌, ◌-◌, ◌^◌, ◌≤◌, ◌<◌, ◌≡◌, refl, sym, ◌∙◌, false, none, some, Result, ok, List, [], ◌∷◌,
  ◌++◌, ◌==◌, length, replicate, arith, ltb, Bool-cases, inl, inr, if◌then◌else◌, ℕ_discrete,
}
use tiny_adnl.Adnl.PeersSet.Sample.{choose_first}
use tiny_adnl.Rldp.Compression.{decompress, last?}
use tiny_adnl.Adnl.PeersSet.Choose.{get_random_peers}
use tiny_adnl.Overlay.Defs.{
  OverlayError, OverlayBroadcast, OverlayBroadcastFec, IncomingFecTransfer, incoming, Overlay,
}
use tiny_adnl.Overlay.Outgoing.RoundTrip.{receive_broadcast-send_broadcast}
use tiny_adnl.Overlay.Fec.{receive_fec_broadcast, transfer_task}
use tiny_adnl.Overlay.Fec.Ended.{Later}
use tiny_adnl.Overlay.Fec.Forged.{IsForged, receive_fec_broadcast_forged}
use tiny_adnl.Overlay.Broadcasts.{
  receive_broadcast, make_fec_part_to_sign, has_any_sender, to_le_bytes,
}
use tiny_adnl.Overlay.Broadcasts.{
  make_broadcast_to_sign, create_broadcast, spawn_broadcast_gc_task, is_broadcast_outdated,
}
use tiny_adnl.Overlay.Outgoing.{random_neighbours, recipients, send_broadcast}
use tiny_adnl.Overlay.Peers.{new_overlay}
use tiny_adnl.Overlay.Gc.{finish_broadcast, gc_loop}
use tiny_adnl.Overlay.Gc.Tracked.{occurrences, Tracked}
use tiny_adnl.Overlay.Gc.Loop.{Collected}
use tiny_adnl.Overlay.Gc.Reach.{Reach, started, sent, slept, Reach-new-Tracked, gc_loop-ends}
use tiny_adnl.Overlay.Outgoing.{OutgoingFecTransfer, send_waves}
use tiny_adnl.Overlay.Outgoing.Waves.{IsRising, total_sent, send_waves-ends}
use tiny_adnl.Overlay.Node.{in_parts, OverlayReader, NodeState, try_consume_custom}
use tiny_adnl.Overlay.Node.Isolated.{TouchesAfter, try_consume_custom-TouchesAfter}
use tiny_adnl.Overlay.Sample.{
  toy, toy-IsSigning, stored, stored-IsCodec, four_bytes, one_packet, options, fec, lonely,
  numbered,
}

abbrev begun : Overlay (List ℕ)
begun = new_overlay choose_first 5 77 [] options

abbrev with_sent : Overlay (List ℕ)
with_sent = (send_broadcast toy stored choose_first begun 100 (1 ∷ 2 ∷ []) 5 random_neighbours).0

sleeping : 1 ≤ occurrences 100 with_sent.gc_tasks
unfolding send_broadcast create_broadcast spawn_broadcast_gc_task make_broadcast_to_sign new_overlay
sleeping = omega arith

counted : with_sent.finished_broadcast_count + 1 < 2 ^ 32
unfolding send_broadcast create_broadcast spawn_broadcast_gc_task make_broadcast_to_sign new_overlay
counted = omega arith

abbrev with_finished : Overlay (List ℕ)
with_finished = finish_broadcast with_sent 100

finished : with_finished.finished_broadcast_count < 2 ^ 32
unfolding send_broadcast create_broadcast spawn_broadcast_gc_task make_broadcast_to_sign new_overlay
    finish_broadcast
finished = omega arith

reached : Reach toy stored choose_first four_bytes one_packet begun with_finished
reached = slept 100 sleeping counted (sent 100 (1 ∷ 2 ∷ []) 5 random_neighbours started)

Reach-new-Tracked_example : Tracked with_finished
Reach-new-Tracked_example =
    Reach-new-Tracked toy stored choose_first four_bytes one_packet 5 77 [] options with_finished
      reached

gc_loop-ends_example :
    (o' : Overlay (List ℕ)) × (gc_loop (with_finished.finished_broadcast_count + 1) with_finished
      ≡ some o')
    × (length o'.finished_broadcasts ≤ with_finished.options.max_broadcast_log)
    × Collected with_finished o'
        (with_finished.finished_broadcast_count - with_finished.options.max_broadcast_log)
gc_loop-ends_example =
    gc_loop-ends toy stored choose_first four_bytes one_packet 5 77 [] options with_finished reached
      finished

abbrev long_text : List ℕ
long_text = replicate 300 5

-- It does not end like compressed data.
not_packed : decompress stored long_text ≡ none
unfolding decompress last?
not_packed = refl

on_time : is_broadcast_outdated lonely 120 100 ≡ false
unfolding is_broadcast_outdated
on_time = refl

receive_broadcast-send_broadcast_example :
    (b : OverlayBroadcast) × (r' : Overlay (List ℕ)) × ((send_broadcast toy stored choose_first
        lonely 100 long_text 5 random_neighbours).1.1
      ≡ some (b, recipients toy stored choose_first lonely random_neighbours))
    × (receive_broadcast toy stored choose_first lonely 120 9 b ≡ (
      r',
      ok (
          get_random_peers ℕ_discrete choose_first lonely.neighbours
            lonely.options.secondary_broadcast_target_count
            (some 9)),
    ))
    × (r'.received_broadcasts
        ≡ lonely.received_broadcasts
          ++ (record { packets = 1; bytes = long_text; from = toy.compute_short_id (toy.full_id 5) }
              ∷ []))
    × ((later peer : ℕ) → receive_broadcast toy stored choose_first r' later peer b ≡ (r', ok []))
receive_broadcast-send_broadcast_example =
    receive_broadcast-send_broadcast toy stored choose_first lonely lonely 100 120 9 long_text 5
      random_neighbours toy-IsSigning stored-IsCodec (omega arith)
      (λ out e. absurd (none-ne-some _ (sym not_packed ∙ e))) refl on_time refl

abbrev forged_part : OverlayBroadcastFec
forged_part = record {
  src = 5;
  data_hash = 33;
  data_size = 4;
  flags = 1;
  bytes = 1 ∷ 2 ∷ [];
  seqno = 0;
  fec = fec;
  date = 100;
  signature = replicate 64 0;
}

forged : IsForged toy four_bytes stored choose_first 5 forged_part
unfolding make_fec_part_to_sign has_any_sender to_le_bytes
forged = refl

receive_fec_broadcast_forged_example :
    (o' : Overlay (List ℕ)) × (r : Result OverlayError (List ℕ)) × (t : IncomingFecTransfer
      (List ℕ))
    × (receive_fec_broadcast toy four_bytes stored choose_first lonely 120 9 forged_part
        ≡ some (o', r))
    × (o'.owned_broadcasts 33 ≡ some (incoming t))
    × ((later : Overlay (List ℕ))
        → Later toy four_bytes stored choose_first 33
            (transfer_task toy four_bytes stored o' 33 t)
            later
        → later.received_broadcasts ≡ lonely.received_broadcasts)
receive_fec_broadcast_forged_example =
    receive_fec_broadcast_forged toy four_bytes stored choose_first lonely 120 9 5 forged_part
      on_time refl refl refl (omega arith) forged

numbered-IsRising : IsRising numbered
numbered-IsRising = record {
  rises = λ engine block seqno p h. elim (Bool-cases (ltb seqno (2 ^ 24))) [
    | inl fits ↦ ground arith
    | inr over ↦ absurd (none-ne-some _ (rw over at h))
  ];
}

-- A broadcast with one source packet, which is to be sent in three packets.
abbrev outgoing : OutgoingFecTransfer (List ℕ)
outgoing = record {
  broadcast_id = 29;
  encoder = record {
    engine = 1 ∷ 2 ∷ [];
    params = fec;
    source_packets = record { symbol_id = 0; bytes = 1 ∷ 2 ∷ [] } ∷ [];
    encoder_index = 0;
  };
  seqno = 0;
}

send_waves-ends_example :
    (waves : List (List OverlayBroadcastFec)) × (send_waves toy numbered
        (length outgoing.encoder.source_packets + 3 + 2)
        2
        (λ n k. 100)
        outgoing
        5
        3
      ≡ some waves)
    × (total_sent waves ≤ length outgoing.encoder.source_packets + 3 + 1)
send_waves-ends_example =
    send_waves-ends toy numbered numbered-IsRising 2 (λ n k. 100) outgoing 5 3 (omega arith)
      (omega arith, tt)

abbrev reader : OverlayReader
reader = record {
  message_id = 3;
  query_id = 4;
  get_random_peers_id = 5;
  read_message = λ bytes. some (77, in_parts forged_part);
  read_query = λ bytes. none;
  read_peers = λ bytes. none;
}

abbrev node : NodeState (List ℕ)
node = record { overlays = λ id. if id == 77 then some lonely else none; subscribers = λ id. none }

try_consume_custom-TouchesAfter_example :
    TouchesAfter choose_first toy stored four_bytes reader node 3
      (1 ∷ [])
      78
      (try_consume_custom choose_first toy stored four_bytes reader node 120 9 3 (1 ∷ []))
try_consume_custom-TouchesAfter_example =
    try_consume_custom-TouchesAfter choose_first toy stored four_bytes reader node 120 9 3 (1 ∷ [])
      78
