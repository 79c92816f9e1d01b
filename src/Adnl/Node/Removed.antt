-- ===== src/Adnl/Node/Removed.antt =====
-- What removal does to the channel of a peer, src/adnl/node/mod.rs.
use tiny_adnl.Prelude.{ℕ, ◌≡◌, ◌≢◌, Bool, none, some, List}
use tiny_adnl.Adnl.Channel.{Channel}
use tiny_adnl.Adnl.Node.{Node, Peers}
use tiny_adnl.Adnl.Node.Linked.{Linked}

-- The peers of the local id have the peer no more, and nothing leads to a channel with it.
pub record Gone (n : Node) (local_id peer_id : ℕ) : Type 0 where
  pub no_peer : (peers : Peers) → n.peers local_id ≡ some peers → peers peer_id ≡ none
  pub no_channel : n.channels_by_peers peer_id ≡ none
  pub no_id :
      (id : List ℕ) (place : ℕ) (priority : Bool) (ch : Channel)
      → n.channels_by_id id ≡ some (place, priority)
      → n.store place ≡ some ch
      → ch.peer_id ≢ peer_id
