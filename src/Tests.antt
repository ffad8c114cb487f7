-- ===== src/Tests.antt =====
-- Runs at concrete inputs.
pub mod Memory
pub mod Launching
pub mod Power
pub mod Sweeping
pub mod Classes
pub mod Validating
pub mod Parts
pub mod Resolving
pub mod Passing
pub mod Secrets
pub mod Booting
pub mod Building
pub mod Fleet
