-- ===== src/Config.antt =====
-- The settings that a configuration file gives (crates/remote-merge-config).
pub mod Include
pub mod Values
