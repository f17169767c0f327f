-- ===== src/Publisher.antt =====
-- The package `internal/publisher`: the state document, its encoding, and the transport.
pub mod State
pub mod Json
pub mod Tls
pub mod Mqtt
