-- ===== src/Socket.antt =====
-- internal/socket: the control messages of transparent UDP proxying.
pub mod Cmsg
pub mod Tests
