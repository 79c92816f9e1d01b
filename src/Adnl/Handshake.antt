-- ===== src/Adnl/Handshake.antt =====
-- src/adnl/handshake.rs: packets to a peer with which there is no channel. The temporary key pair
-- of the sender is an argument; a key store is a function from the 32 bytes of a short id.
pub mod RoundTrip
mod Tests
use tiny_adnl.Prelude.{
  ℕ, Bool, true, false, Option, none, some, Result, ok, err, List, [], ◌∷◌, ◌++◌, if◌then◌else◌,
  ltb, length, take, drop,
}
use tiny_adnl.Adnl.Encryption.{Cipher, seal, unseal}

pub data HandshakeError : Type 0 where
  bad_handshake_packet_length bad_handshake_packet_checksum invalid_public_key : HandshakeError

-- Secret keys are numbers. The last two are the public key of a secret key, as bytes, and the check
-- that bytes are a public key.
pub record HandshakeKeys : Type 0 where
  pub compute_shared_secret : ℕ → List ℕ → List ℕ
  pub public_key : ℕ → List ℕ
  pub is_public_key : List ℕ → Bool

module _ (c : Cipher) (k : HandshakeKeys) where
  pub build_handshake_packet : List ℕ → List ℕ → ℕ → List ℕ → Option ℕ → List ℕ
  build_handshake_packet peer_id peer_id_full temp_private_key buffer version =
      seal c (peer_id ++ k.public_key temp_private_key)
        (k.compute_shared_secret temp_private_key peer_id_full) buffer version

  -- The id of the local key, the version and the data that is left in the buffer.
  unfoldable pub parse_handshake_packet :
      (List ℕ → Option ℕ) → List ℕ → Result HandshakeError (Option (List ℕ × Option ℕ × List ℕ))
  parse_handshake_packet keys buffer =
      let local_id = take 32 buffer in
      let other_public_key = take 32 (drop 32 buffer) in
      if ltb (length buffer) 96 then err bad_handshake_packet_length else elim (keys local_id) [
        | none ↦ ok none
        | some local_key ↦
            if k.is_public_key other_public_key
            then elim (unseal c 64 (k.compute_shared_secret local_key other_public_key) buffer) [
              | none ↦ err bad_handshake_packet_checksum
              | some (version, bytes) ↦ ok (some (local_id, version, bytes))
            ]
            else err invalid_public_key
      ]
