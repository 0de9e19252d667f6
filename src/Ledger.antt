-- ===== src/Ledger.antt =====
-- packages/protocol/meshcompute_protocol/ledger.py, the credit ledger.
pub mod Merkle
pub mod Block
pub mod Chain
pub mod Tamper
pub mod Minting
pub mod Nonces
pub mod Replication
pub mod Production
pub mod Balances
pub mod ForkChoice
mod Tests
