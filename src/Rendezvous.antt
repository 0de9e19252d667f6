-- ===== src/Rendezvous.antt =====
-- apps/control-plane/meshcompute_control/rendezvous.py: who to fetch content from, and tickets
-- between peers.
pub mod Peers
pub mod Tracker
pub mod Leader
pub mod Roles
pub mod Tickets
pub mod Takeover
mod Tests
