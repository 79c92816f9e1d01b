-- ===== src/Adnl/Incoming.antt =====
-- `handle_received_data` of src/adnl/node/receiver.rs, up to the messages of the packet. The bytes
-- of a short id stand for a number, and the reading of a packet's contents is a parameter.
pub mod KnownChannel
mod Tests
use tiny_adnl.Prelude.{
  ℕ, Bool, true, false, Option, none, some, Result, ok, err, List, if◌then◌else◌, ◌==◌, not, take,
}
use tiny_adnl.Adnl.Encryption.{Cipher}
use tiny_adnl.Adnl.Channel.{Channel, AdnlChannelError, decrypt}
use tiny_adnl.Adnl.Handshake.{HandshakeError, HandshakeKeys, parse_handshake_packet}
use tiny_adnl.Adnl.Packet.{IncomingPacketContents}
use tiny_adnl.Adnl.Peer.{SocketAddr}
use tiny_adnl.Adnl.Node.{Node, NewPeerContext, touch_channel}
use tiny_adnl.Adnl.Receiver.{Identities, CheckError, check_packet}

pub data ReceiveError : Type 0 where
  handshake : HandshakeError → ReceiveError
  channel : AdnlChannelError → ReceiveError
  unsupported_version invalid_packet : ReceiveError
  check : CheckError → ReceiveError

abbrev pub adnl_initial_version : ℕ
adnl_initial_version = 0

-- What is known of a packet that is decrypted.
pub record Opened : Type 0 where
  pub priority : Bool
  pub local_id : ℕ
  pub peer_id : Option ℕ
  pub version : Option ℕ
  pub bytes : List ℕ

pub record Reading : Type 0 where
  pub number : List ℕ → ℕ
  pub contents : List ℕ → Option IncomingPacketContents

pub is_supported : Option ℕ → Bool
is_supported none = true
is_supported (some version) = version == adnl_initial_version

module _ (c : Cipher) (hk : HandshakeKeys) (k : Identities) (r : Reading) where
  -- The channel with the id at the start of the packet.
  pub open_channel : Node → List ℕ → Node × Result ReceiveError (Option Opened)
  open_channel n buffer = elim (n.channels_by_id (take 32 buffer)) [
    | none ↦ (n, ok none)
    | some (place, priority) ↦ elim (n.store place) [
      | none ↦ (n, ok none)
      | some ch ↦ elim (decrypt c ch buffer priority) [
        | err e ↦ (n, err (channel e))
        | ok (version, bytes) ↦ (
          touch_channel n place ch,
          ok (
              some (record {
                priority = priority;
                local_id = ch.local_id;
                peer_id = some ch.peer_id;
                version = version;
                bytes = bytes;
              })),
        )
      ]
    ]
  ]

  pub open_packet : Node → (List ℕ → Option ℕ) → List ℕ → Node × Result ReceiveError (Option Opened)
  open_packet n keys buffer = elim (parse_handshake_packet c hk keys buffer) [
    | err e ↦ (n, err (handshake e))
    | ok none ↦ open_channel n buffer
    | ok (some (local_id, version, bytes)) ↦ (
      n,
      ok (
          some (record {
            priority = false;
            local_id = r.number local_id;
            peer_id = none;
            version = version;
            bytes = bytes;
          })),
    )
  ]

  -- The contents of a packet that is to be processed, with its peer.
  pub receive_packet :
      Node
      → (List ℕ → Option ℕ)
      → Option (NewPeerContext → SocketAddr → ℕ → Bool)
      → ℕ
      → ℕ
      → List ℕ
      → Option (Node × Result ReceiveError (Option (ℕ × IncomingPacketContents)))
  receive_packet n keys filter channel_key now buffer =
      let (n', opened) = open_packet n keys buffer in
      elim opened [
        | err e ↦ some (n', err e)
        | ok none ↦ some (n', ok none)
        | ok (some o) ↦
            if is_supported o.version
            then elim (r.contents o.bytes) [
              | none ↦ some (n', err invalid_packet)
              | some p ↦
                  elim (check_packet k n' filter channel_key now o.bytes p o.local_id o.peer_id
                    o.priority) [
                      | none ↦ none
                      | some (n'', err e) ↦ some (n'', err (check e))
                      | some (n'', ok none) ↦ some (n'', ok none)
                      | some (n'', ok (some peer_id)) ↦ some (n'', ok (some (peer_id, p)))
                    ]
            ]
            else some (n', err unsupported_version)
      ]
