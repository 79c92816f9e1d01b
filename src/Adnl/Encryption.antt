-- ===== src/Adnl/Encryption.antt =====
-- src/adnl/encryption.rs, and the layout of a packet that src/adnl/channel.rs and
-- src/adnl/handshake.rs have in common behind their headers. The hash and the key stream of the
-- cipher (crates sha2, aes and ctr) are parameters.
pub mod Mask
pub mod RoundTrip
pub mod Plain
pub mod Sample
use Prim.Native.Nat.{bit_xor}
use tiny_adnl.Prelude.{
  ℕ, ◌+◌, ◌*◌, ◌/◌, ◌%◌, Bool, true, false, Option, none, some, List, [], ◌∷◌, ◌++◌, if◌then◌else◌,
  ltb, ◌==◌, length, get_or, take, drop, same_bytes,
}

-- `Sha256::digest`, and the byte of the key stream at a place, for a key and an initial counter.
pub record Cipher : Type 0 where
  pub digest : List ℕ → List ℕ
  pub keystream : List ℕ → List ℕ → ℕ → ℕ

unfoldable pub mask_from : (ℕ → ℕ) → ℕ → List ℕ → List ℕ
mask_from stream i [] = []
mask_from stream i (byte ∷ rest) = bit_xor byte (stream i) ∷ mask_from stream (i + 1) rest

-- The four bytes in which the version is hidden.
pub record Xor : Type 0 where
  pub byte0 : ℕ
  pub byte1 : ℕ
  pub byte2 : ℕ
  pub byte3 : ℕ

-- `xor[i % 4] ^= byte`
unfoldable pub xor_at : ℕ → ℕ → Xor → Xor
xor_at i byte x =
    if i % 4 == 0
    then record x { byte0 = bit_xor x.byte0 byte }
    else if i % 4 == 1
    then record x { byte1 = bit_xor x.byte1 byte }
    else if i % 4 == 2
    then record x { byte2 = bit_xor x.byte2 byte }
    else record x { byte3 = bit_xor x.byte3 byte }

-- The loop over `bytes.iter().enumerate()`, from index `i` on.
unfoldable pub xor_all : ℕ → Xor → List ℕ → Xor
xor_all i x [] = x
xor_all i x (byte ∷ rest) = xor_all (i + 1) (xor_at i byte x) rest

unfoldable pub xor_of : List ℕ → Xor
xor_of bytes = record {
  byte0 = get_or bytes 0 0;
  byte1 = get_or bytes 1 0;
  byte2 = get_or bytes 2 0;
  byte3 = get_or bytes 3 0;
}

abbrev pub xor_bytes : Xor → List ℕ
xor_bytes x = x.byte0 ∷ x.byte1 ∷ x.byte2 ∷ x.byte3 ∷ []

-- The version twice, the high byte first.
unfoldable pub version_xor : ℕ → Xor
version_xor version = record {
  byte0 = version / 256 % 256;
  byte1 = version % 256;
  byte2 = version / 256 % 256;
  byte3 = version % 256;
}

-- The two halves are the same.
unfoldable pub version_of : Xor → Option ℕ
version_of xor =
    if xor.byte0 == xor.byte2
    then (if xor.byte1 == xor.byte3 then some (xor.byte0 * 256 + xor.byte1) else none)
    else none

-- The prefix ends in four bytes at `start` and the checksum.
unfoldable pub decode_version : ℕ → List ℕ → Option ℕ
decode_version start prefix = version_of (
    xor_all 0 (xor_all 0 (xor_of (take 4 (drop start prefix))) (take start prefix))
      (drop (start + 4) prefix))

module _ (c : Cipher) where
  -- `build_packet_cipher`, and `apply_keystream` from its start.
  unfoldable pub apply_keystream : List ℕ → List ℕ → List ℕ → List ℕ
  apply_keystream secret checksum data_bytes =
      let key = take 16 secret ++ take 16 (drop 16 checksum) in
      let counter = take 4 checksum ++ take 12 (drop 20 secret) in
      mask_from (c.keystream key counter) 0 data_bytes

  unfoldable pub compute_packet_data_hash : Option ℕ → List ℕ → List ℕ
  compute_packet_data_hash (some version) data_bytes =
      c.digest (version / 256 % 256 ∷ version % 256 ∷ data_bytes)
  compute_packet_data_hash none data_bytes = c.digest data_bytes

  -- What follows the header in a packet, for a version or without.
  unfoldable pub seal : List ℕ → List ℕ → List ℕ → Option ℕ → List ℕ
  seal header secret data_bytes (some version) =
      let checksum = compute_packet_data_hash (some version) data_bytes in
      let xor = xor_all 0 (xor_all 0 (version_xor version) header) checksum in
      header ++ (xor_bytes xor ++ (checksum ++ apply_keystream secret checksum data_bytes))
  seal header secret data_bytes none =
      let checksum = compute_packet_data_hash none data_bytes in
      header ++ (checksum ++ apply_keystream secret checksum data_bytes)

  -- A packet with a header of `start` bytes, read without a version.
  unfoldable pub unseal_plain : ℕ → List ℕ → List ℕ → Option (Option ℕ × List ℕ)
  unseal_plain start secret buffer =
      let checksum = take 32 (drop start buffer) in
      let data_bytes = apply_keystream secret checksum (drop (start + 32) buffer) in
      if same_bytes (compute_packet_data_hash none data_bytes) checksum
      then some (none, data_bytes)
      else none

  -- With a version first; if the hash does not fit, the data is restored.
  unfoldable pub unseal : ℕ → List ℕ → List ℕ → Option (Option ℕ × List ℕ)
  unseal start secret buffer =
      let prefix = take (start + 36) buffer in
      let checksum = take 32 (drop (start + 4) buffer) in
      let data_bytes = apply_keystream secret checksum (drop (start + 36) buffer) in
      if ltb (start + 36) (length buffer)
      then elim (decode_version start prefix) [
        | none ↦ unseal_plain start secret buffer
        | some version ↦
            if same_bytes (compute_packet_data_hash (some version) data_bytes) checksum
            then some (some version, data_bytes)
            else unseal_plain start secret (prefix ++ apply_keystream secret checksum data_bytes)
      ]
      else unseal_plain start secret buffer
