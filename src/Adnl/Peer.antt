-- ===== src/Adnl/Peer.antt =====
-- src/adnl/peer.rs: what is known of a remote peer. The key of the channel and the public key are
-- numbers; a new key is an argument. A history that waits for another thread is the result `none`.
pub mod Reinit
mod Tests
use tiny_adnl.Prelude.Bytes.{add32}
use tiny_adnl.Prelude.{
  ℕ, ◌+◌, ◌*◌, ◌/◌, ◌%◌, ◌^◌, Bool, true, false, Option, none, some, if◌then◌else◌, ltb, ◌==◌, not,
}
use tiny_adnl.Util.PacketsHistory.{PacketsHistory, for_send, for_recv, reset}

pub record SocketAddr : Type 0 where
  pub octet0 : ℕ
  pub octet1 : ℕ
  pub octet2 : ℕ
  pub octet3 : ℕ
  pub port : ℕ

-- The octets, then the port with its low byte first, in a little-endian number.
pub pack_socket_addr : SocketAddr → ℕ
pack_socket_addr a =
    a.octet0
    + a.octet1 * 2 ^ 8
    + a.octet2 * 2 ^ 16
    + a.octet3 * 2 ^ 24
    + a.port % 256 * 2 ^ 32
    + a.port / 256 % 256 * 2 ^ 40

pub unpack_socket_addr : ℕ → SocketAddr
unpack_socket_addr n = record {
  octet0 = n % 256;
  octet1 = n / 2 ^ 8 % 256;
  octet2 = n / 2 ^ 16 % 256;
  octet3 = n / 2 ^ 24 % 256;
  port = n / 2 ^ 32 % 256 + n / 2 ^ 40 % 256 * 256;
}

pub record PeerState : Type 0 where
  pub ordinary_history : PacketsHistory
  pub priority_history : PacketsHistory
  pub reinit_date : ℕ

pub for_receive_with_reinit_date : ℕ → PeerState
for_receive_with_reinit_date date = record {
  ordinary_history = for_recv;
  priority_history = for_recv;
  reinit_date = date;
}

pub for_send_state : PeerState
for_send_state = record {
  ordinary_history = for_send;
  priority_history = for_send;
  reinit_date = 0;
}

unfoldable pub history : PeerState → Bool → PacketsHistory
history s true = s.priority_history
history s false = s.ordinary_history

pub record Peer : Type 0 where
  pub id : ℕ
  pub addr : ℕ
  pub channel_key : ℕ
  pub receiver_state : PeerState
  pub sender_state : PeerState

pub new : ℕ → ℕ → SocketAddr → ℕ → Peer
new channel_key local_reinit_date addr id = record {
  id = id;
  addr = pack_socket_addr addr;
  channel_key = channel_key;
  receiver_state = for_receive_with_reinit_date local_reinit_date;
  sender_state = for_send_state;
}

pub get_addr : Peer → SocketAddr
get_addr p = unpack_socket_addr p.addr

pub set_addr : Peer → SocketAddr → Peer
set_addr p addr = record p { addr = pack_socket_addr addr }

-- The two histories of a state, the ordinary one first.
pub reset_histories : PeerState → Option PeerState
reset_histories s = elim (reset s.ordinary_history) [
  | none ↦ none
  | some ordinary ↦ elim (reset s.priority_history) [
    | none ↦ none
    | some priority ↦ some (record s { ordinary_history = ordinary; priority_history = priority })
  ]
]

-- Both states, the sender's first.
pub reset_states : Peer → Option Peer
reset_states p = elim (reset_histories p.sender_state) [
  | none ↦ none
  | some sender ↦ elim (reset_histories p.receiver_state) [
    | none ↦ none
    | some receiver ↦ some (record p { sender_state = sender; receiver_state = receiver })
  ]
]

pub set_reinit_date : PeerState → ℕ → PeerState
set_reinit_date s date = record s { reinit_date = date }

pub try_reinit_sender : Peer → ℕ → Option (Peer × Bool)
try_reinit_sender p date =
    let dated : Peer = record p { sender_state = set_reinit_date p.sender_state date } in
    if date == p.sender_state.reinit_date
    then some (p, true)
    else if ltb p.sender_state.reinit_date date
    then (if not (p.sender_state.reinit_date == 0)
        then elim (reset_states dated) [ none ↦ none | some q ↦ some (q, true) ]
        else some (dated, true))
    else some (p, false)

-- The method `reset`; `channel_key` is the pair that is generated.
pub reset_peer : ℕ → Peer → Peer
reset_peer channel_key p = record p {
  channel_key = channel_key;
  receiver_state = for_receive_with_reinit_date (add32 p.receiver_state.reinit_date 1);
  sender_state = for_send_state;
}
