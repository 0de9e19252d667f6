-- ===== src/Store.antt =====
-- apps/control-plane/meshcompute_control/store.py: the control plane's database.
pub mod Tables
pub mod Replay
pub mod History
mod Tests
