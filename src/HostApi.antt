-- ===== src/HostApi.antt =====
-- host_api.rs: the routes of the local HTTP API and the dispatch of its requests to the inventory,
-- the registry, the scheduler and the image catalog.
mod Errors
mod Paths
mod Routes
pub mod Service
pub mod Meaning
pub mod Addresses
unfoldable pub use Errors.*
unfoldable pub use Paths.*
unfoldable pub use Routes.*
