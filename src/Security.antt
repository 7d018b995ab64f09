-- ===== src/Security.antt =====
-- Access control (crates/kernmux-daemon/src/security.rs): the roles of local peers, the
-- authorization of a request class, and the requests that may be under way at once.
mod Policy
mod Limiter
pub mod Decision
pub mod Uses
pub mod Admission
mod Tests
unfoldable pub use Policy.*
unfoldable pub use Limiter.*
