-- ===== src/Adnl/Receiver/Accepted.antt =====
-- What a packet fulfils that `check_packet` of src/adnl/node/receiver.rs accepts.
use tiny_adnl.Prelude.Bytes.{add32}
use tiny_adnl.Prelude.{ℕ, ◌≤◌, ◌≡◌, ◌≢◌, ◌⊎◌, Bool, true, Option, none, some, List}
use tiny_adnl.Util.PacketsHistory.{deliver_packet}
use tiny_adnl.Adnl.Packet.{ReinitDates, PacketContentsSignature, IncomingPacketContents}
use tiny_adnl.Adnl.Peer.{SocketAddr, Peer, history, try_reinit_sender}
use tiny_adnl.Adnl.Node.{Node, NewPeerContext, Peers, put_peer}
use tiny_adnl.Adnl.Receiver.Entered.{Entered}
use tiny_adnl.Adnl.Receiver.{Identities, is_some}
use tiny_adnl.Adnl.Receiver.Source.{Signed, Source}

module _ (k : Identities) where
  pub record Accepted (n : Node) (filter : Option (NewPeerContext → SocketAddr → ℕ → Bool))
      (channel_key now : ℕ) (raw : List ℕ) (p : IncomingPacketContents) (local_id : ℕ)
      (from_channel : Option ℕ) (priority : Bool) (peer_id : ℕ) (n' : Node) : Type 0 where
    -- The node once the sender is entered, if it is, and its peers.
    pub known : Node
    pub entry : Entered k n filter channel_key now p local_id from_channel peer_id known
    pub peers : Peers
    pub known_peers : known.peers local_id ≡ some peers
    -- The peer as it is found there, after the check of the dates, and as it is left in the table.
    pub before : Peer
    pub dated : Peer
    pub peer : Peer
    pub found : peers peer_id ≡ some before
    pub undated : p.reinit_dates ≡ none → dated ≡ before
    pub reinit :
        (d : ReinitDates)
        → p.reinit_dates ≡ some d
        → try_reinit_sender before d.local ≡ some (dated, true)
    pub unnumbered : p.seqno ≡ none → peer ≡ dated
    pub same_id : peer.id ≡ dated.id
    pub state : n' ≡ put_peer known local_id peers peer_id (some peer)
    -- A packet from a channel names no other source, and the channel is still there.
    pub channel :
        (q : ℕ)
        → from_channel ≡ some q
        → (peer_id ≡ q)
          × (p.from ≡ none)
          × (p.from_short ≡ none)
          × (is_some (n'.channels_by_peers peer_id) ≡ true)
    -- A signature is right, for the key that has the peer's id or for the peer's known key.
    pub signed :
        (s : PacketContentsSignature)
        → p.signature ≡ some s
        → (key : ℕ) × Signed k raw s key × ((k.compute_short_id key ≡ peer_id) ⊎ (key ≡ before.id))
    -- A packet with its sender's key has a signature where it is required.
    pub required :
        n.options.packet_signature_required ≡ true
        → from_channel ≡ none
        → p.from_short ≡ none
        → p.signature ≢ none
    pub dates :
        (d : ReinitDates)
        → p.reinit_dates ≡ some d
        → (d.target ≤ n'.start_time)
          × (d.local ≤ add32 now n'.options.clock_tolerance_sec)
          × (peer.sender_state.reinit_date ≡ d.local)
    -- The history took the number for a new one.
    pub is_new :
        (seqno : ℕ)
        → p.seqno ≡ some seqno
        → n'.options.packet_history_enabled ≡ true
        → deliver_packet (history dated.receiver_state priority) seqno
          ≡ some (true, history peer.receiver_state priority)
    pub confirms :
        (seqno : ℕ)
        → p.confirm_seqno ≡ some seqno
        → seqno ≤ (history peer.sender_state priority).seqno
