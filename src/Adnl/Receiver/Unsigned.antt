-- ===== src/Adnl/Receiver/Unsigned.antt =====
-- Packets that name a known peer by its short id, in `check_packet` of
-- src/adnl/node/receiver.rs.
use tiny_adnl.Prelude.{ℕ, ◌≡◌, Bool, Option, none, some, ok, List, arith}
use tiny_adnl.Adnl.Packet.{IncomingPacketContents}
use tiny_adnl.Adnl.Peer.{SocketAddr, Peer}
use tiny_adnl.Adnl.Node.{Node, NewPeerContext, Peers, put_peer}
use tiny_adnl.Adnl.Receiver.{
  Identities, is_some, verify, find_source, find_peer, check_reinit, check_history, check_confirm,
  check_state, check_packet,
}

module _ (k : Identities) where
  -- A packet outside of any channel that names a known peer by its short id, and has no signature,
  -- dates or numbers, is accepted whether or not the options require signatures, and whatever it
  -- says.
  pub check_packet-unsigned :
      (n : Node) (filter : Option (NewPeerContext → SocketAddr → ℕ → Bool)) (channel_key now : ℕ)
      (raw : List ℕ) (p : IncomingPacketContents) (local_id peer_id : ℕ) (priority : Bool)
      (peers : Peers) (peer : Peer)
      → p.from ≡ none
      → p.from_short ≡ some peer_id
      → p.signature ≡ none
      → p.reinit_dates ≡ none
      → p.seqno ≡ none
      → p.confirm_seqno ≡ none
      → n.peers local_id ≡ some peers
      → peers peer_id ≡ some peer
      → check_packet k n filter channel_key now raw p local_id none priority
        ≡ some (put_peer n local_id peers peer_id (some peer), ok (some peer_id))
  unfolding check_packet find_source find_peer is_some verify check_state check_reinit check_history
      check_confirm
  check_packet-unsigned n filter channel_key now raw p local_id peer_id priority peers peer a b c d
        e f g h =
      ground (arith, a, b, c, d, e, f, g, h)
