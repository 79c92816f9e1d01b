-- ===== src/Adnl/Handshake/Tests.antt =====
-- A handshake of src/adnl/handshake.rs with a sample cipher.
use tiny_adnl.Prelude.{
  ℕ, ◌≡◌, refl, true, Option, none, some, ok, List, [], ◌∷◌, replicate, take, arith,
}
use tiny_adnl.Adnl.Encryption.{
  mask_from, xor_at, xor_all, xor_of, version_of, decode_version, apply_keystream,
  compute_packet_data_hash, seal,
}
use tiny_adnl.Adnl.Encryption.Sample.{sample, sample-IsCipher, AllBytes-replicate}
use tiny_adnl.Adnl.Handshake.{HandshakeKeys, build_handshake_packet, parse_handshake_packet}
use tiny_adnl.Adnl.Handshake.RoundTrip.{Meets, parse_handshake_packet-build_handshake_packet}

abbrev keys : HandshakeKeys
keys = record {
  compute_shared_secret = λ key public. replicate 32 1;
  public_key = λ key. replicate 32 4;
  is_public_key = λ bytes. true;
}

abbrev store : List ℕ → Option ℕ
store id = some 10

abbrev peer_id : List ℕ
peer_id = replicate 32 8

meets : Meets keys store peer_id [] 10 20
meets = record {
  known = refl;
  agreed = refl;
  accepted = refl;
  id_len = refl;
  id_bytes = AllBytes-replicate 32 8 (omega arith);
  key_len = refl;
  key_bytes = AllBytes-replicate 32 4 (omega arith);
}

parse_handshake_packet-build_handshake_packet_example :
    parse_handshake_packet sample keys store
      (build_handshake_packet sample keys peer_id [] 20 (1 ∷ 2 ∷ []) (some 0))
    ≡ ok (some (peer_id, some 0, 1 ∷ 2 ∷ []))
parse_handshake_packet-build_handshake_packet_example =
    parse_handshake_packet-build_handshake_packet sample keys store peer_id [] 10 20 (1 ∷ 2 ∷ []) 0
      sample-IsCipher meets (omega arith, (omega arith, tt)) (omega arith) (omega arith)

looks_plain :
    decode_version 64
      (take 100 (build_handshake_packet sample keys peer_id [] 20 (5 ∷ 6 ∷ 7 ∷ 8 ∷ []) none))
    ≡ none
unfolding build_handshake_packet seal apply_keystream compute_packet_data_hash mask_from
    decode_version version_of xor_all xor_at xor_of
looks_plain = refl
