-- ===== src/Gateway.antt =====
-- apps/gateway/meshcompute_gateway: router.py, which backend serves a request, and app.py, the sessions.
pub mod Router
pub mod Routing
pub mod Serving
pub mod Sessions
pub mod Posting
pub mod Kept
pub mod Changes
pub mod Conversation
pub mod Relaying
pub mod Relayed
mod Tests
