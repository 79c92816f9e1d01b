-- ===== src/Adnl/Peer/Tests.antt =====
-- src/adnl/peer.rs at a concrete peer.
use tiny_adnl.Prelude.{◌≡◌, refl, true, none, some}
use tiny_adnl.Adnl.Peer.{SocketAddr, PeerState, Peer, try_reinit_sender, set_reinit_date}

abbrev localhost : SocketAddr
localhost = record { octet0 = 127; octet1 = 0; octet2 = 0; octet3 = 1; port = 23123 }

abbrev state : PeerState
state = record {
  ordinary_history = record { mask = none; seqno = 0 };
  priority_history = record { mask = none; seqno = 0 };
  reinit_date = 0;
}

abbrev peer : Peer
peer = record { id = 1; addr = 0; channel_key = 2; receiver_state = state; sender_state = state }

abbrev dated : Peer
dated = record peer { sender_state = record state { reinit_date = 5 } }

accepts : try_reinit_sender peer 5 ≡ some (dated, true)
unfolding try_reinit_sender set_reinit_date
accepts = refl
