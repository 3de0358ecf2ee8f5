-- ===== src/Tunnel.antt =====
-- pkg/tunnel: the piping of a tunnel, what is written in front of its data, and the idle timer.
pub mod IdleTimer
pub mod Pipe
pub mod ProxyHeader
pub mod Tests
