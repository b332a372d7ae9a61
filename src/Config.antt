-- ===== src/Config.antt =====
-- config-server: the ContainerSSH configuration server.
pub mod App
pub mod Naming
pub mod Templates
pub mod Persistent
pub mod Storage
pub mod Access
pub mod SettingsApp
pub mod Handler
pub mod Startup
pub mod Main
