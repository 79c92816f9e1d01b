-- ===== src/Adnl/Channel.antt =====
-- src/adnl/channel.rs: the encrypted channel between two peers. The agreement on a secret and the
-- id that a secret gives are parameters. The short id of a node stands for its 32 bytes as a
-- number, the first byte the highest, so that the order of ids is that of the numbers.
pub mod RoundTrip
pub mod Timeout
mod Tests
use Prim.Native.Nat.{compare, Ordering}
use tiny_adnl.Prelude.Bytes.{add32}
use tiny_adnl.Prelude.{
  ℕ, ◌+◌, Bool, true, false, Option, none, some, Result, ok, err, List, [], ◌∷◌, ◌++◌,
  if◌then◌else◌, ltb, leb, ◌==◌, ◌&&◌, ◌||◌, length,
}
use mathlib.Core.List.{reverse}
use tiny_adnl.Adnl.Encryption.{Cipher, seal, unseal}

pub data AdnlChannelError : Type 0 where
  channel_message_is_too_short : ℕ → AdnlChannelError
  invalid_channel_message_checksum : AdnlChannelError

pub data ChannelCreationContext : Type 0 where
  create_channel confirm_channel : ChannelCreationContext

pub record SubChannelSide : Type 0 where
  pub id : List ℕ
  pub secret : List ℕ

pub record ChannelSide : Type 0 where
  pub ordinary : SubChannelSide
  pub priority : SubChannelSide

-- Key pairs and public keys are numbers.
pub record Keys : Type 0 where
  pub compute_shared_secret : ℕ → ℕ → List ℕ
  pub compute_channel_id : List ℕ → List ℕ

pub record Channel : Type 0 where
  pub ready : Bool
  pub channel_out : ChannelSide
  pub channel_in : ChannelSide
  pub local_id : ℕ
  pub peer_id : ℕ
  pub peer_channel_public_key : ℕ
  pub peer_channel_date : ℕ
  pub drop_at : ℕ

-- Each two neighbours change places.
unfoldable pub build_priority_secret : List ℕ → List ℕ
build_priority_secret (x ∷ y ∷ rest) = y ∷ x ∷ build_priority_secret rest
build_priority_secret rest = rest

abbrev pub is_confirmed : ChannelCreationContext → Bool
is_confirmed confirm_channel = true
is_confirmed create_channel = false

unfoldable pub sub_side : ChannelSide → Bool → SubChannelSide
sub_side side priority = if priority then side.priority else side.ordinary

module _ (k : Keys) where
  unfoldable pub from_secret : List ℕ → ChannelSide
  from_secret secret = record {
    ordinary = record { id = k.compute_channel_id secret; secret = secret };
    priority = record {
      id = k.compute_channel_id (build_priority_secret secret);
      secret = build_priority_secret secret;
    };
  }

  -- The secrets for what comes in and for what goes out.
  unfoldable pub order_secrets : ℕ → ℕ → List ℕ → List ℕ × List ℕ
  order_secrets local_id peer_id secret = elim (compare local_id peer_id) [
    | Ordering.lt ↦ (secret, reverse secret)
    | Ordering.eq ↦ (secret, secret)
    | Ordering.gt ↦ (reverse secret, secret)
  ]

  unfoldable pub new : ℕ → ℕ → ℕ → ℕ → ℕ → ChannelCreationContext → Channel
  new local_id peer_id channel_key peer_channel_public_key peer_channel_date context =
      let (in_secret, out_secret) =
        order_secrets local_id peer_id
          (k.compute_shared_secret channel_key peer_channel_public_key) in
      record {
        ready = is_confirmed context;
        channel_out = from_secret out_secret;
        channel_in = from_secret in_secret;
        local_id = local_id;
        peer_id = peer_id;
        peer_channel_public_key = peer_channel_public_key;
        peer_channel_date = peer_channel_date;
        drop_at = 0;
      }

unfoldable pub is_still_valid : Channel → ℕ → ℕ → Bool
is_still_valid ch public_key date =
    ch.peer_channel_public_key == public_key || leb date ch.peer_channel_date

unfoldable pub set_ready : Channel → Channel
set_ready ch = record ch { ready = true }

-- `compare_exchange(0, now + timeout)`, and the test of the value that was there.
unfoldable pub update_drop_timeout : Channel → ℕ → ℕ → Channel × Bool
update_drop_timeout ch now timeout =
    let ch' : Channel = if ch.drop_at == 0 then record ch { drop_at = add32 now timeout } else ch in
    (ch', ltb 0 ch.drop_at && ltb ch.drop_at now)

unfoldable pub reset_drop_timeout : Channel → Channel
reset_drop_timeout ch = record ch { drop_at = 0 }

module _ (c : Cipher) where
  -- The version and the data that is left in the buffer.
  unfoldable pub decrypt : Channel → List ℕ → Bool → Result AdnlChannelError (Option ℕ × List ℕ)
  decrypt ch buffer priority =
      if ltb (length buffer) 64
      then err (channel_message_is_too_short (length buffer))
      else elim (unseal c 32 (sub_side ch.channel_in priority).secret buffer) [
        | none ↦ err invalid_channel_message_checksum
        | some r ↦ ok r
      ]

  unfoldable pub encrypt : Channel → List ℕ → Bool → Option ℕ → List ℕ
  encrypt ch buffer priority version =
      let side = sub_side ch.channel_out priority in seal c side.id side.secret buffer version
