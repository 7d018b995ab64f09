-- ===== src/Api.antt =====
-- The version 1 contract (crates/kernmux-api/src/v1.rs): the data that the daemon's parts exchange.
mod Host
mod Events
pub mod Compatibility
pub mod Equality
unfoldable pub use Host.*
unfoldable pub use Events.*
