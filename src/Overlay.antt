-- ===== src/Overlay.antt =====
-- The overlays, `src/overlay`.
pub mod Defs
pub mod Broadcasts
pub mod Fec
pub mod Gc
pub mod Outgoing
pub mod Peers
pub mod Node
pub mod Sample
mod Tests
