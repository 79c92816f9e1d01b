-- ===== src/Adnl/Handshake/RoundTrip.antt =====
-- What src/adnl/handshake.rs builds for a peer, that peer parses.
use mathlib.Core.List.{append_assoc, append-nil}
use tiny_adnl.Prelude.Bytes.{AllBytes}
use tiny_adnl.Prelude.{
  ℕ, ◌^◌, ◌<◌, ◌≡◌, ◌∙◌, ap, sym, true, Option, none, some, ok, List, ◌++◌, length, take, drop,
  take-append, drop-append, length-append, arith,
}
use tiny_adnl.Adnl.Encryption.{Cipher, seal, unseal}
use tiny_adnl.Adnl.Encryption.RoundTrip.{IsCipher, unseal-seal, length-seal, header-seal}
use tiny_adnl.Adnl.Encryption.Plain.{NoVersion, unseal-seal_plain, AllBytes-append}
use tiny_adnl.Adnl.Handshake.{HandshakeKeys, build_handshake_packet, parse_handshake_packet}

-- The peer has this key under its id, both sides agree on a secret, and ids and public keys are 32
-- bytes.
pub record Meets (k : HandshakeKeys) (keys : List ℕ → Option ℕ) (peer_id peer_id_full : List ℕ)
    (local_key temp : ℕ) : Type 0 where
  pub known : keys peer_id ≡ some local_key
  pub agreed :
      k.compute_shared_secret temp peer_id_full
      ≡ k.compute_shared_secret local_key (k.public_key temp)
  pub accepted : k.is_public_key (k.public_key temp) ≡ true
  pub id_len : length peer_id ≡ 32
  pub id_bytes : AllBytes peer_id
  pub key_len : length (k.public_key temp) ≡ 32
  pub key_bytes : AllBytes (k.public_key temp)

-- The header of a packet is found in it again.
header_lem :
    (id key rest packet : List ℕ)
    → packet ≡ (id ++ key) ++ rest
    → length id ≡ 32
    → length key ≡ 32
    → (take 32 packet ≡ id) × (take 32 (drop 32 packet) ≡ key)
header_lem id key rest packet e h k = (
  ap (take 32) (e ∙ append_assoc id key rest)
      ∙ take-append id (key ++ rest) 32 0 (omega arith)
      ∙ append-nil id,
  ap (λ y. take 32 (drop 32 y)) (e ∙ append_assoc id key rest)
      ∙ ap (take 32) (drop-append id (key ++ rest) 32 0 (omega arith))
      ∙ take-append key rest 32 0 (omega arith)
      ∙ append-nil key,
)

module _ (c : Cipher) (k : HandshakeKeys) (keys : List ℕ → Option ℕ) (peer_id peer_id_full : List ℕ)
    (local_key temp : ℕ) where
  parse-unseal :
      (bytes : List ℕ) (version : Option ℕ)
      → IsCipher c
      → Meets k keys peer_id peer_id_full local_key temp
      → unseal c 64
          (k.compute_shared_secret temp peer_id_full)
          (build_handshake_packet c k peer_id peer_id_full temp bytes version)
        ≡ some (version, bytes)
      → parse_handshake_packet c k keys
          (build_handshake_packet c k peer_id peer_id_full temp bytes version)
        ≡ ok (some (peer_id, version, bytes))
  unfolding parse_handshake_packet build_handshake_packet
  parse-unseal bytes version laws m read =
      let header : List ℕ = peer_id ++ k.public_key temp in
      let secret : List ℕ = k.compute_shared_secret temp peer_id_full in
      let packet : List ℕ = seal c header secret bytes version in
      let (rest, e) = header-seal c header secret bytes version in
      let (first, second) =
        header_lem peer_id (k.public_key temp) rest packet e m.id_len m.key_len in
      let long = length-seal c header secret bytes version laws in
      let read' : unseal c 64 (k.compute_shared_secret local_key (k.public_key temp)) packet
          ≡ some (version, bytes) =
        ap (λ s. unseal c 64 s packet) (sym m.agreed) ∙ read in
      ground (
        arith,
        first,
        second,
        long,
        length-append peer_id (k.public_key temp),
        m.known,
        m.accepted,
        m.id_len,
        m.key_len,
        read',
      )

  -- A handshake packet with a version and with some data is parsed by the peer that it is for, to
  -- the peer's own id, that version and that data.
  pub parse_handshake_packet-build_handshake_packet :
      (bytes : List ℕ) (version : ℕ)
      → IsCipher c
      → Meets k keys peer_id peer_id_full local_key temp
      → AllBytes bytes
      → 0 < length bytes
      → version < 2 ^ 16
      → parse_handshake_packet c k keys
          (build_handshake_packet c k peer_id peer_id_full temp bytes (some version))
        ≡ ok (some (peer_id, some version, bytes))
  unfolding build_handshake_packet
  parse_handshake_packet-build_handshake_packet bytes version laws m h some_data small =
      parse-unseal bytes (some version) laws m (
        unseal-seal c 64 (peer_id ++ k.public_key temp) (k.compute_shared_secret temp peer_id_full)
          bytes version laws
          (omega (arith, length-append peer_id (k.public_key temp), m.id_len, m.key_len))
          (AllBytes-append peer_id (k.public_key temp) m.id_bytes m.key_bytes) h small some_data)

  -- A packet without a version too, unless it looks like one with a version whose hash fits.
  pub parse_plain-build_handshake_packet :
      (bytes : List ℕ)
      → IsCipher c
      → Meets k keys peer_id peer_id_full local_key temp
      → AllBytes bytes
      → NoVersion c 64
          (k.compute_shared_secret temp peer_id_full)
          (build_handshake_packet c k peer_id peer_id_full temp bytes none)
      → parse_handshake_packet c k keys
          (build_handshake_packet c k peer_id peer_id_full temp bytes none)
        ≡ ok (some (peer_id, none, bytes))
  unfolding build_handshake_packet
  parse_plain-build_handshake_packet bytes laws m h clean = parse-unseal bytes none laws m (
      unseal-seal_plain c 64 (peer_id ++ k.public_key temp)
        (k.compute_shared_secret temp peer_id_full) bytes laws
        (omega (arith, length-append peer_id (k.public_key temp), m.id_len, m.key_len))
        (AllBytes-append peer_id (k.public_key temp) m.id_bytes m.key_bytes) h clean)
