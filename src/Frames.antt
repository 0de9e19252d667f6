-- ===== src/Frames.antt =====
-- packages/protocol/meshcompute_protocol/frames.py: binary frames for large payloads.
pub mod Struct
pub mod Frame
pub mod RoundTrip
pub mod Bounds
mod Tests
