-- ===== src/Vllm.antt =====
-- The package `internal/vllm`: the metrics parser, the queries on a scrape, and the client.
pub mod Labels
pub mod Metrics
pub mod Names
pub mod Reading
pub mod Client
