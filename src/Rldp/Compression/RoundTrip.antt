-- ===== src/Rldp/Compression/RoundTrip.antt =====
-- What src/rldp/compression.rs compresses, it decompresses.
use tiny_adnl.Prelude.{
  ℕ, zero, suc, ◌+◌, ◌-◌, ◌*◌, ◌/◌, ◌%◌, ◌^◌, ◌≤◌, ◌<◌, ◌≡◌, refl, ap, some, List, [], ◌∷◌, ◌++◌,
  leb, length, take, arith, length-append, Option-cases, Bool-cases, ◌⊎◌, inl, inr,
  get_or-append_right,
}
use tiny_adnl.Rldp.Compression.{
  Zstd, to_be_bytes, tag_compressed, last?, compress, source_length, decompress,
}

last?-append : (xs : List ℕ) (a : ℕ) → last? (xs ++ (a ∷ [])) ≡ some a
unfolding last?
last?-append [] a = refl
last?-append (x ∷ []) a = refl
last?-append (x ∷ y ∷ xs) a = last?-append (y ∷ xs) a

take-append : (xs ys : List ℕ) (n : ℕ) → length xs ≡ n → take n (xs ++ ys) ≡ xs
take-append [] ys zero e = refl
take-append [] ys (suc n) e = absurd (omega arith)
take-append (x ∷ xs) ys zero e = absurd (omega arith)
take-append (x ∷ xs) ys (suc n) e = ap (◌∷◌ x) (take-append xs ys n (omega arith))

-- What `zstd` documents: frames one behind another decode to their contents one behind another.
pub record IsCodec (z : Zstd) : Type 0 where
  pub decodes :
      (a b x y : List ℕ)
      → z.encode a ≡ some x
      → z.encode b ≡ some y
      → z.decode_all (x ++ y) ≡ some (a ++ b)

digits :
    (n : ℕ)
    → n < 2 ^ 32
    → n / 2 ^ 24 % 256 * 2 ^ 24 + n / 2 ^ 16 % 256 * 2 ^ 16 + n / 2 ^ 8 % 256 * 2 ^ 8 + n % 256 ≡ n
digits n h = omega arith

source_length-append :
    (bytes : List ℕ) (n : ℕ) → n < 2 ^ 32 → source_length (bytes ++ to_be_bytes n) ≡ n
unfolding source_length
source_length-append bytes n h =
    let l : length (bytes ++ to_be_bytes n) ≡ length bytes + 4 =
      length-append bytes (to_be_bytes n) in
    rw
      (
        get_or-append_right bytes (to_be_bytes n) 0 (length (bytes ++ to_be_bytes n) - 4) 0
            (omega arith),
        get_or-append_right bytes (to_be_bytes n) 1 (length (bytes ++ to_be_bytes n) - 3) 0
            (omega arith),
        get_or-append_right bytes (to_be_bytes n) 2 (length (bytes ++ to_be_bytes n) - 2) 0
            (omega arith),
        get_or-append_right bytes (to_be_bytes n) 3 (length (bytes ++ to_be_bytes n) - 1) 0
            (omega arith),
      )
      (digits n h)

unpacks :
    (z : Zstd) (bytes body tail : List ℕ)
    → IsCodec z
    → length bytes < 2 ^ 32
    → z.encode bytes ≡ some body
    → z.encode (to_be_bytes (length bytes)) ≡ some tail
    → decompress z ((body ++ tail) ++ (tag_compressed ∷ [])) ≡ some bytes
unfolding decompress
unpacks z bytes body tail c small first second = ground (
  arith,
  last?-append (body ++ tail) tag_compressed,
  length-append (body ++ tail) (tag_compressed ∷ []),
  take-append (body ++ tail) (tag_compressed ∷ [])
      (length ((body ++ tail) ++ (tag_compressed ∷ [])) - 1),
  c.decodes bytes (to_be_bytes (length bytes)) body tail first second,
  length-append bytes (to_be_bytes (length bytes)),
  source_length-append bytes (length bytes) small,
  take-append bytes (to_be_bytes (length bytes)) (length bytes) refl,
)

-- What a call of `compress` does: short data stays as it is; longer data, if the codec does not
-- fail, is decompressed to itself.
pub decompress-compress :
    (z : Zstd) (bytes out : List ℕ)
    → IsCodec z
    → length bytes < 2 ^ 32
    → compress z bytes ≡ some out
    → ((length bytes ≤ 256) × (out ≡ bytes))
      ⊎ ((256 < length bytes) × (decompress z out ≡ some bytes))
unfolding compress
decompress-compress z bytes out c small h = elim (Bool-cases (leb (length bytes) 256)) [
  | inl short ↦ inl (ground arith)
  | inr long ↦ elim (Option-cases (z.encode bytes)) [
    | inl failed ↦ absurd (ground arith)
    | inr (body, first) ↦ elim (Option-cases (z.encode (to_be_bytes (length bytes % 2 ^ 32)))) [
      | inl failed ↦ absurd (ground arith)
      | inr (tail, second) ↦
          let e : length bytes % 2 ^ 32 ≡ length bytes = omega arith in
          let o : out ≡ (body ++ tail) ++ (tag_compressed ∷ []) = ground arith in
          inr (ground arith, rw o (unpacks z bytes body tail c small first (rw e at second)))
    ]
  ]
]
