-- ===== src/Command.antt =====
-- cmd/warpstream/main.go: the commands, behind the reading of the command line by the cli package.
pub mod Context
pub mod Config
pub mod RunServer
pub mod RunClient
pub mod StartClient
pub mod Policy
pub mod Started
pub mod Tests
