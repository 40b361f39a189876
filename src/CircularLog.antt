-- ===== src/CircularLog.antt =====
-- The circular log pool of mica2: mica2/src/mica/pool/circular_log.h and circular_log_impl.h.
-- The pool's memory is a function from the byte address of an aligned 8-byte word, below `size`, to
-- that word. The constructor maps the first bytes of the pool once more behind its end, so an
-- address past the end is taken modulo `size`. The offsets of items are 48 bits wide.
mod Defs
pub mod Bounds
pub mod Push
pub mod Integrity
mod Tests
unfoldable pub use Defs.*
