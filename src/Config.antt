-- ===== src/Config.antt =====
-- The package `internal/config`: the settings, from flags, the environment and defaults.
pub mod Flags
pub mod Load
