-- ===== src/Scheduler.antt =====
-- apps/control-plane/meshcompute_control: topology.py and scheduler.py, with the records of
-- packages/protocol/meshcompute_protocol that they read.
pub mod Topology
pub mod Node
pub mod Cost
pub mod Plan
pub mod Assign
pub mod Feasible
pub mod Best
pub mod Layers
pub mod Links
mod Tests
