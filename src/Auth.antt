-- ===== src/Auth.antt =====
-- auth-server: the ContainerSSH authentication server.
pub mod Authentik
pub mod Handler
pub mod Webhook
pub mod Startup
pub mod Main
