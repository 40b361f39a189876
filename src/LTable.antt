-- ===== src/LTable.antt =====
-- The hash table of mica2: mica2/src/mica/table/ltable.h and ltable_impl/.
-- A table is an array of buckets of item vectors, with extra buckets chained behind full ones in the
-- lossless variant; the items themselves live in a pool, which the table uses through `Pool`.
pub mod Vec
pub mod Pool
pub mod State
pub mod Lock
pub mod Seqlock
pub mod Item
pub mod Scan
pub mod Chain
pub mod Extra
pub mod Clean
pub mod PoolCalls
pub mod LogPool
pub mod Set
pub mod Get
pub mod Del
pub mod Init
pub mod Steps
pub mod Read
pub mod Writer
pub mod Forget
pub mod Discipline
mod Tests
