-- ===== src/Adnl/Encryption/RoundTrip.antt =====
-- What `seal` of src/adnl/encryption.rs packs, `unseal` unpacks.
use mathlib.Core.List.{append-nil}
use tiny_adnl.Prelude.Bytes.{AllBytes}
use tiny_adnl.Prelude.{
  ℕ, ◌+◌, ◌^◌, ◌<◌, ◌≤◌, ◌≡◌, ◌∙◌, ap, refl, true, Option, none, some, List, ◌++◌, length, take,
  drop, same_bytes, same_bytes_refl, take-append, drop-append, length-append, arith,
}
use tiny_adnl.Adnl.Encryption.Mask.{
  IsXor, mask_from_undo, length-mask_from, xor_all-IsXor, xor_all_swap, xor_all_undo,
}
use tiny_adnl.Adnl.Encryption.{
  Cipher, Xor, xor_all, xor_of, xor_bytes, version_xor, version_of, decode_version, apply_keystream,
  compute_packet_data_hash, seal, unseal,
}

-- What the crates promise: checksums of 32 bytes, and a key stream of bytes.
pub record IsCipher (c : Cipher) : Type 0 where
  pub digest_len : (bytes : List ℕ) → length (c.digest bytes) ≡ 32
  pub digest_bytes : (bytes : List ℕ) → AllBytes (c.digest bytes)
  pub stream_byte : (key counter : List ℕ) (i : ℕ) → c.keystream key counter i < 256

version_xor-IsXor : (version : ℕ) → IsXor (version_xor version)
unfolding version_xor
version_xor-IsXor version = record {
  is0 = omega arith;
  is1 = omega arith;
  is2 = omega arith;
  is3 = omega arith;
}

unhide :
    (x : Xor) (header checksum : List ℕ)
    → AllBytes header
    → AllBytes checksum
    → IsXor x
    → xor_all 0 (xor_all 0 (xor_all 0 (xor_all 0 x header) checksum) header) checksum ≡ x
unhide x header checksum h k v =
    let w = xor_all-IsXor 0 x header h v in
    ap (λ y. xor_all 0 y checksum) (xor_all_swap 0 0 (xor_all 0 x header) header checksum h k w)
    ∙ xor_all_undo 0 (xor_all 0 (xor_all 0 x header) header) checksum k
        (xor_all-IsXor 0 (xor_all 0 x header) header h w)
    ∙ xor_all_undo 0 x header h v

xor_of-xor_bytes : (x : Xor) → xor_of (xor_bytes x) ≡ x
unfolding xor_of
xor_of-xor_bytes x = refl

abbrev hidden : List ℕ → List ℕ → ℕ → Xor
hidden header checksum version = xor_all 0 (xor_all 0 (version_xor version) header) checksum

version_of-version_xor :
    (version : ℕ) → version < 2 ^ 16 → version_of (version_xor version) ≡ some version
unfolding version_of version_xor
version_of-version_xor version h = ground arith

-- The version that is hidden in a prefix is found in it.
decode_version-hidden :
    (start : ℕ) (header checksum : List ℕ) (version : ℕ)
    → length header ≡ start
    → version < 2 ^ 16
    → AllBytes header
    → AllBytes checksum
    → decode_version start (header ++ (xor_bytes (hidden header checksum version) ++ checksum))
      ≡ some version
unfolding decode_version xor_of
decode_version-hidden start header checksum version e small h k =
    let x = hidden header checksum version in
    let tail = xor_bytes x ++ checksum in
    let e0 : drop start (header ++ tail) ≡ tail = drop-append header tail start 0 (omega arith) in
    let e1 : take start (header ++ tail) ≡ header =
      take-append header tail start 0 (omega arith) ∙ append-nil header in
    let e2 : drop (start + 4) (header ++ tail) ≡ checksum =
      drop-append header tail (start + 4) 4 (omega arith) in
    let e3 : xor_all 0 (xor_all 0 x header) checksum ≡ version_xor version =
      unhide (version_xor version) header checksum h k (version_xor-IsXor version) in
    ap
      (λ y. version_of (
        xor_all 0 (xor_all 0 (xor_of (take 4 y)) (take start (header ++ tail)))
          (drop (start + 4) (header ++ tail))))
      e0
    ∙ ap (λ y. version_of (xor_all 0 (xor_all 0 x y) (drop (start + 4) (header ++ tail)))) e1
    ∙ ap (λ y. version_of (xor_all 0 (xor_all 0 x header) y)) e2
    ∙ ap version_of e3
    ∙ version_of-version_xor version small

record Split (start : ℕ) (header mid checksum rest packet : List ℕ) : Type 0 where
  prefix : take (start + 36) packet ≡ header ++ (mid ++ checksum)
  check : take 32 (drop (start + 4) packet) ≡ checksum
  body : drop (start + 36) packet ≡ rest
  long : length packet ≡ start + 36 + length rest

cut_packet :
    (start : ℕ) (header checksum rest : List ℕ) (x : Xor)
    → length header ≡ start
    → length checksum ≡ 32
    → Split start header (xor_bytes x) checksum rest (header ++ (xor_bytes x ++ (checksum ++ rest)))
cut_packet start header checksum rest x e f =
    let tail = xor_bytes x ++ (checksum ++ rest) in
    record {
      prefix =
          take-append header tail (start + 36) 36 (omega arith)
          ∙ ap (λ y. header ++ (xor_bytes x ++ y))
              (take-append checksum rest 32 0 (omega arith) ∙ append-nil checksum);
      check =
          ap (take 32) (drop-append header tail (start + 4) 4 (omega arith))
          ∙ take-append checksum rest 32 0 (omega arith)
          ∙ append-nil checksum;
      body =
          drop-append header tail (start + 36) 36 (omega arith)
          ∙ drop-append checksum rest 32 0 (omega arith);
      long = omega (arith, length-append header tail, length-append checksum rest);
    }

pub hash_len :
    (c : Cipher) (v : Option ℕ) (bytes : List ℕ)
    → IsCipher c
    → length (compute_packet_data_hash c v bytes) ≡ 32
unfolding compute_packet_data_hash
hash_len c none bytes laws = laws.digest_len bytes
hash_len c (some v) bytes laws = laws.digest_len _

pub hash_bytes :
    (c : Cipher) (v : Option ℕ) (bytes : List ℕ)
    → IsCipher c
    → AllBytes (compute_packet_data_hash c v bytes)
unfolding compute_packet_data_hash
hash_bytes c none bytes laws = laws.digest_bytes bytes
hash_bytes c (some v) bytes laws = laws.digest_bytes _

-- The cipher undoes itself.
pub apply_keystream_undo :
    (c : Cipher) (secret checksum bytes : List ℕ)
    → IsCipher c
    → AllBytes bytes
    → apply_keystream c secret checksum (apply_keystream c secret checksum bytes) ≡ bytes
unfolding apply_keystream
apply_keystream_undo c secret checksum bytes laws h =
    mask_from_undo _ 0 bytes (laws.stream_byte _ _) h

pub length-apply_keystream :
    (c : Cipher) (secret checksum bytes : List ℕ)
    → length (apply_keystream c secret checksum bytes) ≡ length bytes
unfolding apply_keystream
length-apply_keystream c secret checksum bytes = length-mask_from _ 0 bytes

unseal_versioned :
    (c : Cipher) (start : ℕ) (secret packet prefix checksum body : List ℕ) (version : ℕ)
    → take (start + 36) packet ≡ prefix
    → take 32 (drop (start + 4) packet) ≡ checksum
    → drop (start + 36) packet ≡ body
    → start + 36 < length packet
    → decode_version start prefix ≡ some version
    → same_bytes
        (compute_packet_data_hash c (some version) (apply_keystream c secret checksum body))
        checksum
      ≡ true
    → unseal c start secret packet ≡ some (some version, apply_keystream c secret checksum body)
unfolding unseal
unseal_versioned c start secret packet prefix checksum body version e f g long d same =
    ground (arith, e, f, g, d, same)

-- A packet with a version, and with some data in it, is read as that version and that data,
-- whatever header of the right length stands before it.
pub unseal-seal :
    (c : Cipher) (start : ℕ) (header secret bytes : List ℕ) (version : ℕ)
    → IsCipher c
    → length header ≡ start
    → AllBytes header
    → AllBytes bytes
    → version < 2 ^ 16
    → 0 < length bytes
    → unseal c start secret (seal c header secret bytes (some version)) ≡ some (some version, bytes)
unfolding seal
unseal-seal c start header secret bytes version laws e h k small some_data =
    let checksum : List ℕ = compute_packet_data_hash c (some version) bytes in
    let body : List ℕ = apply_keystream c secret checksum bytes in
    let split =
      cut_packet start header checksum body (hidden header checksum version) e
        (hash_len c (some version) bytes laws) in
    let back : apply_keystream c secret checksum body ≡ bytes =
      apply_keystream_undo c secret checksum bytes laws k in
    unseal_versioned c start secret _ _ checksum body version split.prefix split.check split.body
      (omega (arith, split.long, length-apply_keystream c secret checksum bytes))
      (decode_version-hidden start header checksum version e small h
        (hash_bytes c (some version) bytes laws))
      (ap (λ y. same_bytes (compute_packet_data_hash c (some version) y) checksum) back
        ∙ same_bytes_refl checksum)
    ∙ ap (λ y. some (some version, y)) back

-- A packet is longer than its header and the checksum together.
pub length-seal :
    (c : Cipher) (header secret bytes : List ℕ) (version : Option ℕ)
    → IsCipher c
    → length header + 32 ≤ length (seal c header secret bytes version)
unfolding seal
length-seal c header secret bytes none laws =
    let checksum : List ℕ = compute_packet_data_hash c none bytes in
    let body : List ℕ = apply_keystream c secret checksum bytes in
    omega (
      arith,
      length-append header (checksum ++ body),
      length-append checksum body,
      hash_len c none bytes laws,
    )
length-seal c header secret bytes (some version) laws =
    let checksum : List ℕ = compute_packet_data_hash c (some version) bytes in
    let body : List ℕ = apply_keystream c secret checksum bytes in
    omega (
      arith,
      length-append header (xor_bytes (hidden header checksum version) ++ (checksum ++ body)),
      length-append checksum body,
      hash_len c (some version) bytes laws,
    )

-- A packet begins with its header.
pub header-seal :
    (c : Cipher) (header secret bytes : List ℕ) (version : Option ℕ)
    → (rest : List ℕ) × (seal c header secret bytes version ≡ header ++ rest)
unfolding seal
header-seal c header secret bytes none = (_, refl)
header-seal c header secret bytes (some version) = (_, refl)
