-- ===== src/Dht.antt =====
-- The DHT, `src/dht`.
pub mod Buckets
pub mod Storage
pub mod PeersIter
