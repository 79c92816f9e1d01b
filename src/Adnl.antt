-- ===== src/Adnl.antt =====
-- The ADNL layer, `src/adnl`.
pub mod PeersSet
pub mod Transfer
pub mod Keystore
pub mod Encryption
pub mod Channel
pub mod Handshake
pub mod Sender
pub mod Transfers
pub mod Node
pub mod Packet
pub mod Receiver
pub mod Incoming
pub mod Peer
pub mod Queries
pub mod Messages
