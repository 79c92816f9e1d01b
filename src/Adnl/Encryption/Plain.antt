-- ===== src/Adnl/Encryption/Plain.antt =====
-- Packets without a version, as src/adnl/encryption.rs and its users read them.
use mathlib.Core.List.{append-nil}
use tiny_adnl.Prelude.Bytes.{AllBytes}
use tiny_adnl.Prelude.Xor.{bit_xor-lt}
use tiny_adnl.Prelude.{
  ℕ, zero, suc, ◌+◌, ◌<◌, ◌≡◌, ◌∙◌, ap, refl, false, none, some, List, [], ◌∷◌, ◌++◌, ltb, length,
  take, drop, same_bytes, same_bytes_refl, take-append, drop-append, take-append-drop, arith,
  Bool-cases, inl, inr, Option-cases,
}
use tiny_adnl.Adnl.Encryption.RoundTrip.{IsCipher, hash_len, hash_bytes, apply_keystream_undo}
use tiny_adnl.Adnl.Encryption.{
  Cipher, mask_from, decode_version, apply_keystream, compute_packet_data_hash, seal, unseal_plain,
  unseal,
}

pub AllBytes-append : (xs ys : List ℕ) → AllBytes xs → AllBytes ys → AllBytes (xs ++ ys)
AllBytes-append [] ys h k = k
AllBytes-append (x ∷ xs) ys h k = (h.0, AllBytes-append xs ys h.1 k)

AllBytes-drop : (n : ℕ) (xs : List ℕ) → AllBytes xs → AllBytes (drop n xs)
AllBytes-drop zero xs h = h
AllBytes-drop (suc n) [] h = h
AllBytes-drop (suc n) (x ∷ xs) h = AllBytes-drop n xs h.1

mask_from-AllBytes :
    (stream : ℕ → ℕ) (i : ℕ) (bytes : List ℕ)
    → ((j : ℕ) → stream j < 256)
    → AllBytes bytes
    → AllBytes (mask_from stream i bytes)
unfolding mask_from
mask_from-AllBytes stream i [] s h = tt
mask_from-AllBytes stream i (b ∷ bs) s h =
    (bit_xor-lt b (stream i) h.0 (s i), mask_from-AllBytes stream (i + 1) bs s h.1)

apply_keystream-AllBytes :
    (c : Cipher) (secret checksum bytes : List ℕ)
    → IsCipher c
    → AllBytes bytes
    → AllBytes (apply_keystream c secret checksum bytes)
unfolding apply_keystream
apply_keystream-AllBytes c secret checksum bytes laws h =
    mask_from-AllBytes _ 0 bytes (laws.stream_byte _ _) h

-- No version is found in the packet, or one for which the hash does not fit.
abbrev pub NoVersion : Cipher → ℕ → List ℕ → List ℕ → Type 0
NoVersion c start secret packet =
    (version : ℕ)
    → decode_version start (take (start + 36) packet) ≡ some version
    → same_bytes
        (compute_packet_data_hash c (some version)
          (apply_keystream c secret (take 32 (drop (start + 4) packet)) (drop (start + 36) packet)))
        (take 32 (drop (start + 4) packet))
      ≡ false

unseal-unseal_plain :
    (c : Cipher) (start : ℕ) (secret packet : List ℕ)
    → IsCipher c
    → AllBytes packet
    → NoVersion c start secret packet
    → unseal c start secret packet ≡ unseal_plain c start secret packet
unfolding unseal
unseal-unseal_plain c start secret packet laws h clean =
    let prefix : List ℕ = take (start + 36) packet in
    let checksum : List ℕ = take 32 (drop (start + 4) packet) in
    let body : List ℕ = drop (start + 36) packet in
    let back : prefix ++ apply_keystream c secret checksum (apply_keystream c secret checksum body)
        ≡ packet =
      ap (λ y. prefix ++ y)
        (apply_keystream_undo c secret checksum body laws (AllBytes-drop (start + 36) packet h))
      ∙ take-append-drop (start + 36) packet in
    elim (Bool-cases (ltb (start + 36) (length packet))) [
      | inr short ↦ rw (short, unseal) refl
      | inl long ↦ elim (Option-cases (decode_version start prefix)) [
        | inl none_there ↦ rw (long, unseal) (rw none_there refl)
        | inr (version, found) ↦
            rw (long, unseal)
              (rw found (rw (clean version found) (ap (unseal_plain c start secret) back)))
      ]
    ]

-- A packet without a version is read as its data, unless it looks like one with a version whose
-- hash fits.
pub unseal-seal_plain :
    (c : Cipher) (start : ℕ) (header secret bytes : List ℕ)
    → IsCipher c
    → length header ≡ start
    → AllBytes header
    → AllBytes bytes
    → NoVersion c start secret (seal c header secret bytes none)
    → unseal c start secret (seal c header secret bytes none) ≡ some (none, bytes)
unfolding seal unseal_plain
unseal-seal_plain c start header secret bytes laws e h k clean =
    let checksum : List ℕ = compute_packet_data_hash c none bytes in
    let body : List ℕ = apply_keystream c secret checksum bytes in
    let packet : List ℕ = header ++ (checksum ++ body) in
    let f : length checksum ≡ 32 = hash_len c none bytes laws in
    let check : take 32 (drop start packet) ≡ checksum =
      ap (take 32) (drop-append header (checksum ++ body) start 0 (omega arith))
      ∙ take-append checksum body 32 0 (omega arith)
      ∙ append-nil checksum in
    let rest : drop (start + 32) packet ≡ body =
      drop-append header (checksum ++ body) (start + 32) 32 (omega arith)
      ∙ drop-append checksum body 32 0 (omega arith) in
    let back : apply_keystream c secret checksum body ≡ bytes =
      apply_keystream_undo c secret checksum bytes laws k in
    let bytes_ok : AllBytes packet = AllBytes-append header (checksum ++ body) h (
      AllBytes-append checksum body (hash_bytes c none bytes laws)
        (apply_keystream-AllBytes c secret checksum bytes laws k)) in
    unseal-unseal_plain c start secret packet laws bytes_ok clean
    ∙ rw (check, rest, unseal_plain, back, same_bytes_refl checksum) refl
