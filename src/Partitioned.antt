-- ===== src/Partitioned.antt =====
-- `AbstractPartitionedLimiter`: shares of the limit for named partitions.
pub mod Names
pub mod Config
pub mod Defs
pub mod Share
pub mod Resolve
pub mod Limits
pub mod Contract
pub mod Accepted
pub mod Threads
pub mod Moves
pub mod Counters
pub mod Settled
pub mod Undo
pub mod Observe
pub mod Viewed
pub mod Solo
