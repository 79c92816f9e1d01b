-- ===== src/Adnl/Sender.antt =====
-- src/adnl/node/sender.rs.
pub mod Parts
pub mod Messages
