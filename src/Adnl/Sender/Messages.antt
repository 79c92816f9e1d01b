-- ===== src/Adnl/Sender/Messages.antt =====
-- How a node sends a message, src/adnl/node/sender.rs: `send_message` chooses the channel or a
-- handshake and what goes with the message, and `send_packet` numbers a packet. A packet stands here
-- before it is serialized, signed and encrypted. What the serializer writes, the public key of a
-- secret one and the hash are parameters.
pub mod Numbers
pub mod Carried
pub mod Signer
mod Tests
use tiny_adnl.Prelude.Bytes.{add32}
use tiny_adnl.Prelude.{
  ℕ, ◌+◌, ◌*◌, ◌%◌, ◌^◌, Bool, true, false, Option, none, some, Result, ok, err, List, [], ◌∷◌,
  ◌++◌, map, if◌then◌else◌, ltb, leb, ◌==◌, not, ◌&&◌, length,
}
use tiny_adnl.Util.PacketsHistory.{bump_seqno}
use tiny_adnl.Util.AddressList.{Address, AddressList}
use tiny_adnl.Adnl.Peer.{SocketAddr, PeerState, Peer, history, get_addr}
use tiny_adnl.Adnl.Channel.{Channel}
use tiny_adnl.Adnl.Packet.{ReinitDates, OutgoingMessages}
use tiny_adnl.Adnl.Receiver.{set_history}
use tiny_adnl.Adnl.Node.{Node}
use tiny_adnl.Adnl.Sender.Parts.{max_adnl_message_size, split_parts}

-- `proto::adnl::Message`
pub data AdnlMessage : Type 0 where
  answer_message query_message : ℕ → List ℕ → AdnlMessage
  custom_message : List ℕ → AdnlMessage
  confirm_message : ℕ → ℕ → ℕ → AdnlMessage
  create_message : ℕ → ℕ → AdnlMessage
  part_message : ℕ → ℕ → ℕ → List ℕ → AdnlMessage
  reinit_message : ℕ → AdnlMessage
  nop_message : AdnlMessage

pub data MessageSigner : Type 0 where
  by_channel : Channel → Bool → MessageSigner
  by_key : ℕ → MessageSigner

-- The first two are of the node and of its keys.
pub data AdnlSenderError : Type 0 where
  peers_not_found key_not_found unknown_peer unexpected_message_to_send : AdnlSenderError

-- `from`, `reinit_dates` and the signature are those of a handshake.
pub record SentPacket : Type 0 where
  pub destination : SocketAddr
  pub signer : MessageSigner
  pub priority : Bool
  pub from : Option ℕ
  pub messages : OutgoingMessages
  pub address : AddressList
  pub seqno : ℕ
  pub confirm_seqno : ℕ
  pub reinit_dates : Option ReinitDates
  pub is_signed : Bool

abbrev pub max_priority_attempts : ℕ
max_priority_attempts = 10

-- Whether the packet goes by the priority side, which a peer may not know.
pub use_priority : Peer → MessageSigner → Bool
use_priority peer (by_key key) = false
use_priority peer (by_channel ch priority) =
    if (history peer.receiver_state priority).seqno == 0
      && ltb max_priority_attempts (history peer.sender_state true).seqno
    then false
    else priority

abbrev pub is_handshake : MessageSigner → Bool
is_handshake (by_key key) = true
is_handshake (by_channel ch priority) = false

pub is_loopback : SocketAddr → Bool
is_loopback a = a.octet0 == 127

pub same_ip : SocketAddr → SocketAddr → Bool
same_ip a b =
    a.octet0 == b.octet0 && (a.octet1 == b.octet1 && (a.octet2 == b.octet2 && a.octet3 == b.octet3))

pub localhost : SocketAddr → SocketAddr
localhost a = record { octet0 = 127; octet1 = 0; octet2 = 0; octet3 = 1; port = a.port }

-- The local and the remote address.
pub adjust_addrs : Node → Peer → SocketAddr × SocketAddr
adjust_addrs n peer =
    let peer_addr = get_addr peer in
    if n.options.use_loopback_for_neighbours
      && (same_ip n.socket_addr peer_addr && not (is_loopback peer_addr))
    then (localhost n.socket_addr, localhost peer_addr)
    else (n.socket_addr, peer_addr)

-- `u32::from(ip)`
pub to_address : SocketAddr → Address
to_address a = record {
  ip = a.octet0 * 2 ^ 24 + a.octet1 * 2 ^ 16 + a.octet2 * 2 ^ 8 + a.octet3;
  port = a.port;
}

-- The peer after its counter is raised, and the packet, for a queue of packets that is open.
pub send_packet : Node → (ℕ → ℕ) → ℕ → Peer → MessageSigner → OutgoingMessages → Peer × SentPacket
send_packet n full_id now peer signer messages =
    let priority = use_priority peer signer in
    let (local_addr, peer_addr) = adjust_addrs n peer in
    let (bumped, seqno) = bump_seqno (history peer.sender_state priority) in
    (
      record peer { sender_state = set_history peer.sender_state priority bumped },
      record {
        destination = peer_addr;
        signer = signer;
        priority = priority;
        from = elim signer [ by_key key ↦ some (full_id key) | by_channel _ _ ↦ none ];
        messages = messages;
        address = record {
          address = some (to_address local_addr);
          version = now;
          reinit_date = n.start_time;
          expire_at = add32 now n.options.address_list_timeout_sec;
        };
        seqno = seqno;
        confirm_seqno = (history peer.receiver_state priority).seqno;
        reinit_dates =
            if is_handshake signer
            then some (record { local = n.start_time; target = peer.sender_state.reinit_date })
            else none;
        is_signed = is_handshake signer;
      },
    )

-- One packet for each body.
pub send_packets :
    Node → (ℕ → ℕ) → ℕ → Peer → MessageSigner → List OutgoingMessages → Peer × List SentPacket
send_packets n full_id now peer signer [] = (peer, [])
send_packets n full_id now peer signer (m ∷ rest) =
    let (peer', p) = send_packet n full_id now peer signer m in
    let (last, ps) = send_packets n full_id now peer' signer rest in (last, p ∷ ps)

-- The sizes of the messages that can be sent.
pub message_size : AdnlMessage → Option ℕ
message_size (answer_message id bytes) = some (length bytes + 44)
message_size (query_message id bytes) = some (length bytes + 44)
message_size (custom_message bytes) = some (length bytes + 12)
message_size (confirm_message key peer_key date) = some 72
message_size nop_message = some 4
message_size (create_message key date) = none
message_size (part_message hash total offset bytes) = none
message_size (reinit_message date) = none

-- What goes with the message, and its size.
pub additional_message : (ℕ → ℕ) → ℕ → Peer → Option Channel → Option (ℕ × AdnlMessage)
additional_message public_key now peer none =
    some (40, create_message (public_key peer.channel_key) now)
additional_message public_key now peer (some ch) =
    if ch.ready
    then none
    else some (
      72,
      confirm_message (public_key peer.channel_key) ch.peer_channel_public_key ch.peer_channel_date,
    )

pub choose_signer : ℕ → Option Channel → Bool → MessageSigner
choose_signer local_key none priority = by_key local_key
choose_signer local_key (some ch) priority =
    if ch.ready then by_channel ch priority else by_key local_key

abbrev pub additional_size : Option (ℕ × AdnlMessage) → ℕ
additional_size none = 0
additional_size (some (size, _)) = size

-- The channel with a peer, if there is one.
pub channel_of : Node → ℕ → Option Channel
channel_of n peer_id = elim (n.channels_by_peers peer_id) [
  | none ↦ none
  | some place ↦ n.store place
]

module _ (write : AdnlMessage → List ℕ) (digest : List ℕ → ℕ) where
  pub write_part : List ℕ → ℕ × List ℕ → List ℕ
  write_part bytes (offset, part) =
      write (part_message (digest bytes) (length bytes % 2 ^ 32) offset part)

  pub single_parts : List ℕ → List (ℕ × List ℕ) → List OutgoingMessages
  single_parts bytes [] = []
  single_parts bytes (p ∷ ps) = OutgoingMessages.single (write_part bytes p) ∷ single_parts bytes ps

  -- The packets' messages.
  pub bodies : Option (ℕ × AdnlMessage) → ℕ → AdnlMessage → List OutgoingMessages
  bodies none size message =
      if leb size max_adnl_message_size
      then OutgoingMessages.single (write message) ∷ []
      else single_parts (write message) (split_parts (length (write message)) (write message) none)
  bodies (some (extra, additional)) size message =
      if leb (extra + size) max_adnl_message_size
      then OutgoingMessages.pair (write additional ++ write message) ∷ []
      else elim (split_parts (length (write message)) (write message) (some extra)) [
        | [] ↦ []
        | p ∷ ps ↦
            OutgoingMessages.pair (write additional ++ write_part (write message) p)
            ∷ single_parts (write message) ps
      ]

  pub send_message :
      (ℕ → Option ℕ)
      → (ℕ → ℕ)
      → (ℕ → ℕ)
      → Node
      → ℕ
      → ℕ
      → ℕ
      → AdnlMessage
      → Bool
      → Result AdnlSenderError (Peer × List SentPacket)
  send_message keys full_id public_key n now local_id peer_id message priority =
      elim (n.peers local_id) [
        | none ↦ err peers_not_found
        | some peers ↦ elim (peers peer_id) [
          | none ↦ err unknown_peer
          | some peer ↦ elim (keys local_id) [
            | none ↦ err key_not_found
            | some local_key ↦
                let channel = channel_of n peer_id in
                let additional = additional_message public_key now peer channel in
                elim (message_size message) [
                  | none ↦ err unexpected_message_to_send
                  | some size ↦ ok (
                      send_packets n full_id now peer (choose_signer local_key channel priority)
                        (bodies additional size message))
                ]
          ]
        ]
      ]
