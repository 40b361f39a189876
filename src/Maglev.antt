-- ===== src/Maglev.antt =====
-- The Maglev load balancer: maglev/src/maglev.hpp.
mod Defs
pub mod Prime
pub mod Rows
pub mod Probe
pub mod Populate
pub mod Setup
mod Tests
pub mod Cache
pub mod Lookup
unfoldable pub use Defs.*
