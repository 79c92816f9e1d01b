-- ===== src/Rldp/Compression.antt =====
-- src/rldp/compression.rs: `compress` and `decompress` around the codec of the crate `zstd`, which
-- is a parameter. Bytes are numbers below 256.
pub mod RoundTrip
mod Tests
use tiny_adnl.Prelude.{
  ℕ, ◌+◌, ◌-◌, ◌*◌, ◌/◌, ◌%◌, ◌^◌, Bool, true, false, Option, none, some, List, [], ◌∷◌, ◌++◌,
  if◌then◌else◌, leb, ◌==◌, not, length, take, get_or,
}

abbrev pub compression_threshold : ℕ
compression_threshold = 256

abbrev pub tag_compressed : ℕ
tag_compressed = 0x80

-- `copy_encode` of one whole input, and `decode_all`; an error is `none`.
pub record Zstd : Type 0 where
  pub encode : List ℕ → Option (List ℕ)
  pub decode_all : List ℕ → Option (List ℕ)

-- `u32::to_be_bytes`
abbrev pub to_be_bytes : ℕ → List ℕ
to_be_bytes n = (n / 2 ^ 24 % 256) ∷ (n / 2 ^ 16 % 256) ∷ (n / 2 ^ 8 % 256) ∷ (n % 256) ∷ []

unfoldable pub last? : List ℕ → Option ℕ
last? [] = none
last? (x ∷ []) = some x
last? (x ∷ y ∷ xs) = last? (y ∷ xs)

-- The last four bytes, shifted together; they are below 256, so `|` is a sum.
pub source_length : List ℕ → ℕ
source_length bytes =
    get_or bytes (length bytes - 4) 0 * 2 ^ 24
    + get_or bytes (length bytes - 3) 0 * 2 ^ 16
    + get_or bytes (length bytes - 2) 0 * 2 ^ 8
    + get_or bytes (length bytes - 1) 0

module _ (z : Zstd) where
  -- The data after the call; `none` is the error, which leaves the data as it was.
  pub compress : List ℕ → Option (List ℕ)
  compress bytes =
      if leb (length bytes) compression_threshold then some bytes else elim (z.encode bytes) [
        | none ↦ none
        | some body ↦ elim (z.encode (to_be_bytes (length bytes % 2 ^ 32))) [
          | none ↦ none
          | some tail ↦ some ((body ++ tail) ++ (tag_compressed ∷ []))
        ]
      ]

  unfoldable pub decompress : List ℕ → Option (List ℕ)
  decompress bytes = elim (last? bytes) [
    | none ↦ none
    | some tag ↦
        if not (tag == tag_compressed)
        then none
        else elim (z.decode_all (take (length bytes - 1) bytes)) [
          | none ↦ none
          | some out ↦
              if not (leb 4 (length out))
              then none
              else if not (source_length out == length out - 4)
              then none
              else some (take (source_length out) out)
        ]
  ]
