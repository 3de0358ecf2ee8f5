-- ===== src/Client.antt =====
-- pkg/client: the client's side of the tunnels.
pub mod Query
pub mod Arguments
pub mod Headers
pub mod Connect
pub mod Tunnels
pub mod Reverse
pub mod Pool
pub mod Udp
pub mod Sessions
pub mod Tests
