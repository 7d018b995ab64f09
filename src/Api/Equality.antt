-- ===== src/Api/Equality.antt =====
-- The derived `PartialEq` of the types of v1.rs.
mod Operations
mod Snapshots
pub use Snapshots.{host_snapshot_eq}
