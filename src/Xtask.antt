-- ===== src/Xtask.antt =====
-- The test runner, xtask/src.
mod Tests
pub mod Exec
pub mod Os
pub mod Text
pub mod Qemu
pub mod Defmt
pub mod Build
pub mod Config
pub mod Expected
pub mod Scenarios
pub mod Runner
pub mod Decoded
pub mod Verdict
pub mod Persisted
pub mod Simulated
pub mod Markers
pub mod Blessed
pub mod Main
pub mod Passed
