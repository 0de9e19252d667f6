-- ===== src/Swarm.antt =====
-- node/runtime/meshcompute_runtime/swarm.py: one file, fetched in chunks from one peer.
pub mod Seeder
pub mod Leecher
pub mod Digest
pub mod Resume
pub mod Exchange
pub mod Handshake
pub mod Written
pub mod Transfer
mod Tests
