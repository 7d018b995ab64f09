-- ===== src/HostApi/Service.antt =====
-- The state of `HostApi`, the backends that it is generic in, the responses that it builds, and
-- its handlers.
pub mod Types
pub mod Files
pub mod Containment
pub mod Submission
pub mod Reads
pub mod Mutations
pub mod Dispatch
pub mod Consoles
pub mod Effects
pub mod Requests
pub mod Building
pub mod Changes
pub mod Steps
pub mod Permits
pub mod Tasks
pub mod Results
pub mod Occupancy
pub mod Runs
pub mod Sample
mod Tests
