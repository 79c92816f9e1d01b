-- ===== src/Rldp.antt =====
-- The RLDP layer, `src/rldp`.
pub mod Incoming
pub mod Outgoing
pub mod Options
pub mod Compression
pub mod Cache
