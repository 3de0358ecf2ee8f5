-- ===== src/Wst.antt =====
-- pkg/wst: WebSocket framing and the upgrade handshake.
pub mod Writer
pub mod Reader
pub mod Frames
pub mod Decode
pub mod RoundTrip
pub mod Control
pub mod Bounds
pub mod Rounds
pub mod Upgrade
pub mod Tests
