-- ===== src/Control.antt =====
-- apps/control-plane/meshcompute_control/app.py: the handlers, over store, rendezvous and scheduler.
pub mod Read
pub mod Requests
pub mod Nodes
pub mod Catalog
pub mod Scheduling
pub mod Receipts
pub mod Meetings
pub mod Steps
pub mod Served
pub mod Scanning
pub mod Trust
pub mod Buckets
pub mod Accounts
pub mod Credit
pub mod Assigned
pub mod Versions
pub mod Relay
pub mod Delivery
mod Tests
