-- ===== src/Adnl/Channel/RoundTrip.antt =====
-- The two ends of a channel of src/adnl/channel.rs.
use tiny_adnl.Prelude.Bytes.{AllBytes}
use tiny_adnl.Prelude.{
  ℕ, ◌^◌, ◌<◌, ◌≤◌, ◌≡◌, ◌∙◌, ap, sym, Bool, true, false, Option, none, some, ok, List, length,
  arith,
}
use tiny_adnl.Adnl.Encryption.{Cipher, seal, unseal}
use tiny_adnl.Adnl.Encryption.RoundTrip.{IsCipher, unseal-seal, length-seal}
use tiny_adnl.Adnl.Encryption.Plain.{NoVersion, unseal-seal_plain}
use tiny_adnl.Adnl.Channel.{
  ChannelCreationContext, SubChannelSide, Keys, Channel, new, order_secrets, from_secret, sub_side,
  decrypt, encrypt,
}

-- Both key pairs agree on one secret, and the id of a channel is 32 bytes.
pub record IsKeys (k : Keys) : Type 0 where
  pub id_len : (secret : List ℕ) → length (k.compute_channel_id secret) ≡ 32
  pub id_bytes : (secret : List ℕ) → AllBytes (k.compute_channel_id secret)

swapped :
    (a b : ℕ) (secret : List ℕ) (k : Keys)
    → (order_secrets k a b secret).1 ≡ (order_secrets k b a secret).0
unfolding order_secrets
swapped a b secret k = ground arith

sub_side-from_secret :
    (k : Keys) (secret : List ℕ) (priority : Bool)
    → IsKeys k
    → (length (sub_side (from_secret k secret) priority).id ≡ 32)
      × AllBytes (sub_side (from_secret k secret) priority).id
unfolding sub_side from_secret
sub_side-from_secret k secret true laws = (laws.id_len _, laws.id_bytes _)
sub_side-from_secret k secret false laws = (laws.id_len _, laws.id_bytes _)

decrypt-unseal :
    (c : Cipher) (ch : Channel) (buffer : List ℕ) (priority : Bool) (r : Option ℕ × List ℕ)
    → 64 ≤ length buffer
    → unseal c 32 (sub_side ch.channel_in priority).secret buffer ≡ some r
    → decrypt c ch buffer priority ≡ ok r
unfolding decrypt
decrypt-unseal c ch buffer priority r long read = ground (arith, read)

module _ (k : Keys) (local_id peer_id key1 key2 public1 public2 date1 date2 : ℕ)
    (context1 context2 : ChannelCreationContext) where
  -- The two ends, each made from its own key pair and the other's public key.
  abbrev pub end1 : Channel
  end1 = new k local_id peer_id key1 public2 date2 context1

  abbrev pub end2 : Channel
  end2 = new k peer_id local_id key2 public1 date1 context2

  abbrev pub Agreed : Type 0
  Agreed = k.compute_shared_secret key1 public2 ≡ k.compute_shared_secret key2 public1

  -- What one end sends with, the other receives with.
  pub sides_meet : Agreed → end1.channel_out ≡ end2.channel_in
  unfolding new
  sides_meet agreed =
      ap (λ s. from_secret k (order_secrets k local_id peer_id s).1) agreed
      ∙ ap (from_secret k) (swapped local_id peer_id (k.compute_shared_secret key2 public1) k)

  out_side-IsId :
      (priority : Bool)
      → IsKeys k
      → (length (sub_side end1.channel_out priority).id ≡ 32)
        × AllBytes (sub_side end1.channel_out priority).id
  unfolding new
  out_side-IsId priority laws = sub_side-from_secret k _ priority laws

  same_side :
      (priority : Bool)
      → Agreed
      → sub_side end1.channel_out priority ≡ sub_side end2.channel_in priority
  same_side priority agreed = ap (λ s. sub_side s priority) (sides_meet agreed)

  -- A message with a version that one end encrypts, the other decrypts to the same message and
  -- version, over the ordinary and over the priority channel, unless the message is empty.
  pub decrypt-encrypt :
      (c : Cipher) (bytes : List ℕ) (priority : Bool) (version : ℕ)
      → IsCipher c
      → IsKeys k
      → Agreed
      → AllBytes bytes
      → 0 < length bytes
      → version < 2 ^ 16
      → decrypt c end2 (encrypt c end1 bytes priority (some version)) priority
        ≡ ok (some version, bytes)
  unfolding encrypt
  decrypt-encrypt c bytes priority version laws keys agreed h some_data small =
      let side : SubChannelSide = sub_side end1.channel_out priority in
      let id = out_side-IsId priority keys in
      let packet : List ℕ = seal c side.id side.secret bytes (some version) in
      decrypt-unseal c end2 packet priority (some version, bytes)
        (omega (arith, id.0, length-seal c side.id side.secret bytes (some version) laws))
        (ap (λ s. unseal c 32 s packet)
            (sym (ap (λ (s : SubChannelSide). s.secret) (same_side priority agreed)))
          ∙ unseal-seal c 32 side.id side.secret bytes version laws id.0 id.1 h small some_data)

  -- A message without a version comes back too, unless its packet looks like one with a version
  -- whose hash fits.
  pub decrypt-encrypt_plain :
      (c : Cipher) (bytes : List ℕ) (priority : Bool)
      → IsCipher c
      → IsKeys k
      → Agreed
      → AllBytes bytes
      → NoVersion c 32
          (sub_side end1.channel_out priority).secret
          (encrypt c end1 bytes priority none)
      → decrypt c end2 (encrypt c end1 bytes priority none) priority ≡ ok (none, bytes)
  unfolding encrypt
  decrypt-encrypt_plain c bytes priority laws keys agreed h clean =
      let side : SubChannelSide = sub_side end1.channel_out priority in
      let id = out_side-IsId priority keys in
      let packet : List ℕ = seal c side.id side.secret bytes none in
      decrypt-unseal c end2 packet priority (none, bytes)
        (omega (arith, id.0, length-seal c side.id side.secret bytes none laws))
        (ap (λ s. unseal c 32 s packet)
            (sym (ap (λ (s : SubChannelSide). s.secret) (same_side priority agreed)))
          ∙ unseal-seal_plain c 32 side.id side.secret bytes laws id.0 id.1 h clean)
