-- ===== src/Transport.antt =====
-- transport.rs: authenticated HTTP over the local socket. A request is routed, identified,
-- authorized, read, handed to the API, and audited.
mod Messages
mod Requests
pub mod Guards
pub mod Host
mod Tests
unfoldable pub use Messages.*
unfoldable pub use Requests.*
