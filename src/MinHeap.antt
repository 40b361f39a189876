-- ===== src/MinHeap.antt =====
-- The heap of the heaviest flows: nitrosketch/minheap.h and minheap.cpp.
mod Defs
pub mod Order
pub mod Count
pub mod Down
pub mod Up
mod Tests
unfoldable pub use Defs.*
