-- ===== src/Util.antt =====
-- The utilities of `src/util`.
pub mod PacketsHistory
pub mod AddressList
