-- ===== src/Bench.antt =====
-- The bench package: episodes, policies and the NaVIDA executor.
pub mod Step
pub mod Navida
pub mod Calls
pub mod Episode
pub mod Policy
pub mod Session
pub mod Batch
pub mod Live
