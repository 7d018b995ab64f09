-- ===== src/Inventory.antt =====
-- inventory.rs: observations of the host become snapshots with generations.
pub mod Observations
pub mod Assembly
pub mod Service
pub mod Devices
pub mod Retention
pub mod Freshness
mod Tests
