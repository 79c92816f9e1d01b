-- ===== src/Rldp/Compression/Tests.antt =====
-- src/rldp/compression.rs with a codec, and the round trip at concrete data.
use tiny_adnl.Prelude.{
  ℕ, ◌<◌, ◌≤◌, ◌≡◌, refl, some, List, [], ◌∷◌, ◌++◌, length, replicate, arith, ◌⊎◌,
}
use tiny_adnl.Rldp.Compression.{Zstd, compress, decompress, to_be_bytes}
use tiny_adnl.Rldp.Compression.RoundTrip.{IsCodec, decompress-compress}

-- A codec that stores the bytes as they are.
abbrev stored : Zstd
stored = record { encode = λ a. some a; decode_all = λ a. some a }

stored-IsCodec : IsCodec stored
stored-IsCodec = record { decodes = λ a b x y p q. cc }

abbrev long_text : List ℕ
long_text = replicate 300 5

packed : compress stored long_text ≡ some ((long_text ++ to_be_bytes 300) ++ (0x80 ∷ []))
unfolding compress
packed = refl

decompress-compress_example :
    ((length long_text ≤ 256) × ((long_text ++ to_be_bytes 300) ++ (0x80 ∷ []) ≡ long_text))
    ⊎ ((256 < length long_text)
        × (decompress stored ((long_text ++ to_be_bytes 300) ++ (0x80 ∷ [])) ≡ some long_text))
decompress-compress_example =
    decompress-compress stored long_text ((long_text ++ to_be_bytes 300) ++ (0x80 ∷ []))
      stored-IsCodec (omega arith) packed
