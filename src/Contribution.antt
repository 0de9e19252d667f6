-- ===== src/Contribution.antt =====
-- node/daemon/meshcompute_node/contribution.py: when a node shares itself, and how much of it.
pub mod Controller
pub mod Budgets
pub mod Gate
mod Tests
