-- ===== src/Main.antt =====
-- cmd/sparkwrangler/main.go: the daemon, from its settings to its shutdown.
pub mod Setup
pub mod Status
pub mod Observe
pub mod Poll
pub mod Run
pub mod Observation
pub mod Sources
pub mod Unscraped
pub mod Unencodable
pub mod Schedule
pub mod Elapsed
pub mod Pings
pub mod Presence
pub mod Passes
pub mod Callbacks
pub mod Loop
pub mod Interleaving
pub mod Overlap
