-- ===== src/SegregatedFit.antt =====
-- The segregated fit pool of mica2: mica2/src/mica/pool/segregated_fit.h and segregated_fit_impl.h.
-- Memory is a function from the address of an aligned 8-byte word to the word. A pointer is its
-- address, `nullptr` is 0.
mod Defs
mod Alloc
pub mod Classes
pub mod Lists
pub mod Unlink
mod Tests
unfoldable pub use Defs.*
unfoldable pub use Alloc.*
