-- ===== src/Images.antt =====
-- image_store.rs: artifact ids and records, the inspection of disk images, and the catalog that
-- numbers the states of the store. The store itself, files on a disk, is a record of operations.
mod Artifacts
mod Disk
mod Catalog
pub mod Ids
pub mod Inspection
pub mod Generations
mod Tests
unfoldable pub use Artifacts.*
unfoldable pub use Disk.*
unfoldable pub use Catalog.*
