-- ===== src/Queue.antt =====
-- The bounded queues of mica2: mica2/src/mica/util/queue.h. Both are rings of `capacity` items between
-- `head_` and `tail_`, of which one is never used, so that a full ring differs from an empty one.
mod Defs
pub mod Ring
pub mod Fifo
pub mod Single
mod Tests
unfoldable pub use Defs.*
