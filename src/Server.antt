-- ===== src/Server.antt =====
-- src/server: the configuration of the server, and how it ends.
pub mod Config
pub mod Shutdown
