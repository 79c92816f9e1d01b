-- ===== src/Adnl/Encryption/Sample.antt =====
-- A hash and a key stream to run src/adnl/encryption.rs and its users with.
use tiny_adnl.Prelude.Bytes.{AllBytes}
use tiny_adnl.Prelude.{ℕ, zero, suc, ◌+◌, ◌*◌, ◌%◌, ◌<◌, refl, ◌∷◌, length, replicate, arith}
use tiny_adnl.Adnl.Encryption.{Cipher}
use tiny_adnl.Adnl.Encryption.RoundTrip.{IsCipher}

abbrev pub sample : Cipher
sample = record {
  digest = λ bytes. (length bytes % 256) ∷ replicate 31 7;
  keystream = λ key counter i. (i * 5 + 3) % 256;
}

pub AllBytes-replicate : (n byte : ℕ) → byte < 256 → AllBytes (replicate n byte)
AllBytes-replicate zero byte h = tt
AllBytes-replicate (suc n) byte h = (h, AllBytes-replicate n byte h)

pub sample-IsCipher : IsCipher sample
sample-IsCipher = record {
  digest_len = λ bytes. refl;
  digest_bytes = λ bytes. (omega arith, AllBytes-replicate 31 7 (omega arith));
  stream_byte = λ key counter i. omega arith;
}
