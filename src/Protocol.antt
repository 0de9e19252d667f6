-- ===== src/Protocol.antt =====
-- packages/protocol/meshcompute_protocol: what the other components share.
pub mod Json
pub mod Identity
pub mod Content
pub mod Receipts
