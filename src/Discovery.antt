-- ===== src/Discovery.antt =====
-- The package `internal/hadiscovery`: the discovery message of Home Assistant.
pub mod Device
pub mod Templates
pub mod Engine
pub mod Host
pub mod Sensors
