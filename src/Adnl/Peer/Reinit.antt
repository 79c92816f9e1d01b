-- ===== src/Adnl/Peer/Reinit.antt =====
-- The dates and the address of a peer, src/adnl/peer.rs.
use tiny_adnl.Prelude.{
  ℕ, ◌^◌, ◌≤◌, ◌<◌, ◌≡◌, Bool, true, false, some, arith, Option-cases, inl, inr,
}
use tiny_adnl.Util.PacketsHistory.{reset}
use tiny_adnl.Adnl.Peer.{
  SocketAddr, pack_socket_addr, unpack_socket_addr, PeerState, Peer, get_addr, set_addr,
  reset_histories, reset_states, set_reinit_date, try_reinit_sender,
}

-- Four bytes and sixteen bits.
pub record IsAddr (a : SocketAddr) : Type 0 where
  pub byte0 : a.octet0 < 256
  pub byte1 : a.octet1 < 256
  pub byte2 : a.octet2 < 256
  pub byte3 : a.octet3 < 256
  pub word : a.port < 2 ^ 16

-- The address that a peer was given is the one that it has.
pub get_addr-set_addr : (p : Peer) (a : SocketAddr) → IsAddr a → get_addr (set_addr p a) ≡ a
unfolding get_addr set_addr pack_socket_addr unpack_socket_addr
get_addr-set_addr p a v = ground arith

-- What `try_reinit_sender` may do: it accepts no date before the known one, and after an accepted
-- date that date is known; the receiver's date and the peer's address and keys stay.
pub record Reinit (p q : Peer) (date : ℕ) (accepted : Bool) : Type 0 where
  pub refused : (accepted ≡ false) → (q ≡ p) × (date < p.sender_state.reinit_date)
  pub taken :
      (accepted ≡ true) → (q.sender_state.reinit_date ≡ date) × (p.sender_state.reinit_date ≤ date)
  pub receiver_date : q.receiver_state.reinit_date ≡ p.receiver_state.reinit_date
  pub same : (q.id ≡ p.id) × (q.addr ≡ p.addr) × (q.channel_key ≡ p.channel_key)

reset_histories_date :
    (s t : PeerState) → reset_histories s ≡ some t → t.reinit_date ≡ s.reinit_date
unfolding reset_histories
reset_histories_date s t h = elim (Option-cases (reset s.ordinary_history)) [
  | inl waits ↦ absurd (ground arith)
  | inr (a, e) ↦ elim (Option-cases (reset s.priority_history)) [
    | inl waits ↦ absurd (ground arith)
    | inr (b, f) ↦ ground arith
  ]
]

pub try_reinit_sender-Reinit :
    (p q : Peer) (date : ℕ) (accepted : Bool)
    → try_reinit_sender p date ≡ some (q, accepted)
    → Reinit p q date accepted
unfolding try_reinit_sender reset_states set_reinit_date
try_reinit_sender-Reinit p q date accepted h =
    let dated : PeerState = set_reinit_date p.sender_state date in
    elim (Option-cases (reset_histories dated)) [
      | inl waits ↦ ground arith
      | inr (sender, e) ↦ elim (Option-cases (reset_histories p.receiver_state)) [
        | inl waits ↦ ground arith
        | inr (receiver, f) ↦ ground (
          arith,
          reset_histories_date dated sender e,
          reset_histories_date p.receiver_state receiver f,
        )
      ]
    ]
