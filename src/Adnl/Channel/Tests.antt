-- ===== src/Adnl/Channel/Tests.antt =====
-- Both ends of a channel of src/adnl/channel.rs, with a sample cipher.
use tiny_adnl.Prelude.{◌+◌, ◌≡◌, refl, true, false, none, some, ok, [], ◌∷◌, replicate, take, arith}
use tiny_adnl.Adnl.Encryption.{
  mask_from, xor_at, xor_all, xor_of, version_of, decode_version, apply_keystream,
  compute_packet_data_hash, seal,
}
use tiny_adnl.Adnl.Encryption.Sample.{sample, sample-IsCipher, AllBytes-replicate}
use tiny_adnl.Adnl.Channel.{
  Keys, Channel, create_channel, confirm_channel, new, order_secrets, from_secret, sub_side,
  decrypt, encrypt,
}
use tiny_adnl.Adnl.Channel.RoundTrip.{IsKeys, end1, end2, decrypt-encrypt}

-- Keys that agree on the sum; the id of a channel is 32 bytes.
abbrev keys : Keys
keys = record {
  compute_shared_secret = λ key public. (key + public) ∷ replicate 31 1;
  compute_channel_id = λ secret. replicate 32 9;
}

keys-IsKeys : IsKeys keys
keys-IsKeys = record {
  id_len = λ secret. refl;
  id_bytes = λ secret. AllBytes-replicate 32 9 (omega arith);
}

abbrev alice : Channel
alice = end1 keys 1 2 10 20 10 20 5 6 create_channel confirm_channel

abbrev bob : Channel
bob = end2 keys 1 2 10 20 10 20 5 6 create_channel confirm_channel

decrypt-encrypt_example :
    decrypt sample bob (encrypt sample alice (1 ∷ 2 ∷ []) true (some 0)) true
    ≡ ok (some 0, 1 ∷ 2 ∷ [])
decrypt-encrypt_example =
    decrypt-encrypt keys 1 2 10 20 10 20 5 6 create_channel confirm_channel sample (1 ∷ 2 ∷ []) true
      0 sample-IsCipher keys-IsKeys refl (omega arith, (omega arith, tt)) (omega arith)
      (omega arith)

looks_plain : decode_version 32 (take 68 (encrypt sample alice (5 ∷ 6 ∷ []) false none)) ≡ none
unfolding encrypt new from_secret order_secrets sub_side seal apply_keystream
    compute_packet_data_hash mask_from decode_version version_of xor_all xor_at xor_of
looks_plain = refl
