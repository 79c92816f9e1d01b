-- ===== src/Overlay/Sample.antt =====
-- Keys, codecs and an overlay to run src/overlay with.
use tiny_adnl.Prelude.{
  ℕ, ◌+◌, ◌*◌, refl, true, none, some, List, [], ◌∷◌, ◌++◌, ◌==◌, leb, ltb, ◌^◌, length,
  if◌then◌else◌, get_or, replicate, arith,
}
use tiny_adnl.Adnl.PeersSet.{with_capacity}
use tiny_adnl.Rldp.Compression.{Zstd}
use tiny_adnl.Rldp.Compression.RoundTrip.{IsCodec}
use tiny_adnl.Rldp.Incoming.{FecType, DecoderEngine}
use tiny_adnl.Rldp.Outgoing.{EncoderEngine}
use tiny_adnl.Overlay.Defs.{OverlayOptions, Overlay}
use tiny_adnl.Overlay.Broadcasts.{OverlayCrypto}
use tiny_adnl.Overlay.Outgoing.RoundTrip.{IsSigning}

abbrev pub toy : OverlayCrypto
toy = record {
  sha256 = λ bytes. length bytes * 7 + get_or bytes 0 0;
  id_bytes = λ id. id ∷ [];
  hash_to_sign = λ m. m.date;
  hash_params = λ params. params.total_len ∷ [];
  broadcast_id = 11;
  broadcast_fec_id = 12;
  broadcast_fec_part_id = 13;
  to_full = λ tl. some tl;
  as_tl = λ full. full;
  ed25519_key = λ tl. some tl;
  full_id = λ key. key;
  key_bytes = λ full. full;
  compute_short_id = λ full. full + 1000;
  sign = λ key m. replicate 64 (key + m.hash);
  verify = λ full m signature. get_or signature 0 0 == full + m.hash;
  sign_node = λ key m. (key + m.node_version) ∷ [];
  verify_node = λ full m signature. get_or signature 0 0 == full + m.node_version;
}

pub toy-IsSigning : IsSigning toy
toy-IsSigning = record { reads = λ full. refl; verifies = λ key m. ground arith }

abbrev pub stored : Zstd
stored = record { encode = λ a. some a; decode_all = λ a. some a }

pub stored-IsCodec : IsCodec stored
stored-IsCodec = record { decodes = λ a b x y p q. cc }

-- A decoder that is done when it has four bytes.
abbrev pub four_bytes : DecoderEngine (List ℕ)
four_bytes = record {
  start = λ n size. [];
  feed = λ d seqno bytes.
      (d ++ bytes, if leb 4 (length (d ++ bytes)) then some (d ++ bytes) else none);
}

-- One block with the data as its one packet.
abbrev pub one_packet : EncoderEngine (List ℕ)
one_packet = record {
  start = λ bytes. bytes;
  blocks = λ bytes. (record { symbol_id = 0; bytes = bytes } ∷ []) ∷ [];
  repair = λ bytes index seqno. some (record { symbol_id = seqno; bytes = bytes });
}

-- Repair packets that are the data, as long as their numbers fit.
abbrev pub numbered : EncoderEngine (List ℕ)
numbered = record {
  start = λ bytes. bytes;
  blocks = λ bytes. (record { symbol_id = 0; bytes = bytes } ∷ []) ∷ [];
  repair = λ bytes index seqno.
      if ltb seqno (2 ^ 24) then some (record { symbol_id = seqno; bytes = bytes }) else none;
}

abbrev pub options : OverlayOptions
options = record {
  max_neighbours = 4;
  max_broadcast_log = 0;
  max_ordinary_broadcast_len = 768;
  broadcast_target_count = 5;
  secondary_broadcast_target_count = 3;
  secondary_fec_broadcast_target_count = 3;
  fec_broadcast_wave_len = 20;
  broadcast_timeout_sec = 60;
  force_compression = true;
}

abbrev pub fec : FecType
fec = record { total_len = 4; packet_len = 2; packet_count = 2 }

-- An overlay that has heard of no one.
abbrev pub lonely : Overlay (List ℕ)
lonely = record {
  id = 77;
  node_key = 5;
  options = options;
  owned_broadcasts = λ _. none;
  finished_broadcasts = [];
  finished_broadcast_count = 0;
  received_broadcasts = [];
  received_peers = λ _. none;
  nodes = λ _. none;
  ignored_peers = [];
  known_peers = with_capacity 8;
  neighbours = with_capacity 4;
  cleanups = [];
  gc_tasks = [];
}
