-- ===== src/Proxy.antt =====
-- The handshakes in front of a tunnel: SOCKS5 and the HTTP proxy on both ends, and the target frame
-- between them.
pub mod Socks5
pub mod HttpProxy
pub mod TargetFrame
pub mod Tests
