-- ===== src/Examples.antt =====
-- The theorems at concrete inputs.
pub mod Filter
pub mod Limits
pub mod Windows
pub mod Slots
pub mod Shares
pub mod Waiting
pub mod Stacks
pub mod Threads
pub mod Callers
pub mod Quickstart
pub mod Samples
