-- ===== src/Server.antt =====
-- pkg/server: the tunnel server.
pub mod Restrictions
pub mod Dispatch
pub mod Bind
pub mod Queue
pub mod Startup
pub mod Gateway
pub mod Registry
pub mod ReverseUdp
pub mod Tests
