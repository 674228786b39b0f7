-- ===== src/Config.antt =====
-- src/config.rs: the configuration file, and the allowed networks.
pub mod Network
pub mod Prefix
pub mod Int64
pub mod Toml
pub mod Load
pub mod Allowed
