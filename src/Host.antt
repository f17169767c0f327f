-- ===== src/Host.antt =====
-- The package `internal/host`: the memory and the network identity of the machine.
pub mod Memory
pub mod Mac
pub mod Network
