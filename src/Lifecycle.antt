-- ===== src/Lifecycle.antt =====
-- Lifecycle command planning (crates/kernmux-daemon/src/lifecycle.rs): the requests and errors, the
-- checks of each kind of resource, and the planner.
mod Requests
pub mod Checks
pub mod Memory
pub mod Devices
pub mod Plan
mod Tests
unfoldable pub use Requests.*
