-- ===== src/Tests.antt =====
-- The theorems at concrete inputs, and runs of the code on small ones.
pub mod Numbers
pub mod Scrapes
pub mod States
pub mod Hosts
pub mod Sessions
pub mod Rounds
pub mod Boundless
pub mod Runs
pub mod Commands
