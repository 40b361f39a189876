-- ===== src/Processor.antt =====
-- The request processors of MICA (mica2/src/mica/processor).
pub mod Interface
pub mod Defs
pub mod Dispatch
pub mod Pipeline
pub mod Stages
pub mod Order
pub mod Process
pub mod Keeps
pub mod Accept
pub mod Owners
pub mod Simple
pub mod Single
pub mod Tables
mod Tests
