-- ===== src/Adnl/Incoming/Tests.antt =====
-- A packet of a channel in src/adnl/node/receiver.rs.
use mathlib.Core.Option.{some-injective, none-ne-some}
use tiny_adnl.Prelude.{
  ℕ, ◌+◌, ◌≡◌, ◌≢◌, ◌∙◌, refl, sym, ap, true, false, none, some, ok, err, List, ◌∷◌, if◌then◌else◌,
  ◌==◌, replicate, arith, same_bytes, same_bytes-true, Bool-cases, inl, inr,
}
use tiny_adnl.Adnl.Encryption.{
  mask_from, xor_at, xor_all, xor_of, version_xor, version_of, decode_version, apply_keystream,
  compute_packet_data_hash, seal, unseal_plain, unseal,
}
use tiny_adnl.Adnl.Encryption.Sample.{sample}
use tiny_adnl.Adnl.Channel.{
  Keys, Channel, create_channel, new, build_priority_secret, order_secrets, from_secret, sub_side,
  decrypt, encrypt,
}
use tiny_adnl.Adnl.Handshake.{HandshakeKeys, parse_handshake_packet}
use tiny_adnl.Adnl.Node.{Node, touch_channel, in_id}
use tiny_adnl.Adnl.Node.Linked.{Linked}
use tiny_adnl.Adnl.Receiver.{Identities, find_peer, packet, unknown_channel}
use tiny_adnl.Adnl.Incoming.{Reading, Opened, open_channel, open_packet}
use tiny_adnl.Adnl.Incoming.KnownChannel.{open_packet-find_peer}

abbrev keys : Keys
keys = record {
  compute_shared_secret = λ key public. (key + public) ∷ replicate 31 1;
  compute_channel_id = λ secret. secret;
}

abbrev here_end : Channel
here_end = new keys 1 2 10 20 5 create_channel

abbrev far_end : Channel
far_end = new keys 2 1 20 10 5 create_channel

abbrev handshake_keys : HandshakeKeys
handshake_keys = record {
  compute_shared_secret = λ key public. replicate 32 1;
  public_key = λ key. replicate 32 4;
  is_public_key = λ bytes. true;
}

abbrev ids : Identities
ids = record {
  verify_raw = λ key message signature. false;
  to_full = λ key. some key;
  compute_short_id = λ full_id. full_id;
}

abbrev reading : Reading
reading = record { number = λ bytes. 1; contents = λ bytes. none }

abbrev host : Node
host = record {
  socket_addr = record { octet0 = 127; octet1 = 0; octet2 = 0; octet3 = 1; port = 1000 };
  options = record {
    query_min_timeout_ms = 500;
    query_default_timeout_ms = 5000;
    transfer_timeout_sec = 3;
    clock_tolerance_sec = 60;
    channel_reset_timeout_sec = 30;
    address_list_timeout_sec = 1000;
    packet_history_enabled = true;
    packet_signature_required = true;
    force_use_priority_channels = true;
    use_loopback_for_neighbours = false;
    version = some 0;
  };
  peers = λ _. none;
  store = λ i. if i == 0 then some here_end else none;
  next_place = 1;
  channels_by_id = λ id. if same_bytes (in_id here_end true) id then some (0, true) else none;
  channels_by_peers = λ p. if p == 2 then some 0 else none;
  start_time = 50;
}

host-Linked : Linked host
unfolding new
host-Linked = record {
  by_id = λ id place priority e. elim (Bool-cases (same_bytes (in_id here_end true) id)) [
    | inl same ↦
        let q : (0, true) ≡ (place, priority) =
          some-injective _ _ (ap (λ b. if b then some (0, true) else none) (sym same) ∙ e) in
        let z : 0 ≡ place = ap (λ x. x.0) q in
        record {
          channel = here_end;
          stored = ap host.store (sym z);
          named =
              ap (λ x. in_id here_end x.1) (sym q) ∙ same_bytes-true (in_id here_end true) id same;
          current = ap some z;
        }
    | inr other ↦
        absurd (none-ne-some _ (ap (λ b. if b then some (0, true) else none) (sym other) ∙ e))
  ];
  by_peer = λ p place e. elim (Bool-cases (p == 2)) [
    | inl same ↦
        let z : 0 ≡ place = ground arith in
        record {
          below = omega (arith, z);
          channel = here_end;
          stored = ap host.store (sym z);
          owned = ground arith;
        }
    | inr other ↦ absurd (ground arith)
  ];
}

abbrev buffer : List ℕ
buffer = encrypt sample far_end (replicate 40 6) true (some 0)

abbrev opened : Opened
opened = record {
  priority = true;
  local_id = 1;
  peer_id = some 2;
  version = some 0;
  bytes = replicate 40 6;
}

abbrev touched : Node
touched = touch_channel host 0 here_end

opens :
    open_packet sample handshake_keys ids reading host (λ id. none) buffer
    ≡ (touched, ok (some opened))
unfolding open_packet open_channel parse_handshake_packet encrypt decrypt new from_secret
    order_secrets sub_side build_priority_secret seal unseal unseal_plain apply_keystream
    compute_packet_data_hash mask_from decode_version version_of version_xor xor_all xor_at xor_of
opens = refl

open_packet-find_peer_example :
    Linked touched
    × ((peer_id : ℕ)
        → opened.peer_id ≡ some peer_id
        → find_peer ids touched 1 true peer_id ≢ err (packet unknown_channel))
open_packet-find_peer_example =
    open_packet-find_peer sample handshake_keys ids reading host touched (λ id. none) buffer opened
      host-Linked opens
