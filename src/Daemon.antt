-- ===== src/Daemon.antt =====
-- The node daemon: its streams of frames, its STUN client, and the fetching of files.
pub mod Wire
pub mod Delivered
pub mod Pings
pub mod Stun
pub mod Attributes
pub mod Masks
pub mod Responses
pub mod Reflexive
pub mod Answers
pub mod Fetch
pub mod Fetched
mod Tests
