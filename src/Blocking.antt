-- ===== src/Blocking.antt =====
-- `BlockingLimiter` and `LifoBlockingLimiter`: callers that wait for a slot of a wrapped limiter.
pub mod Config
pub mod Defs
pub mod Serve
pub mod Orders
pub mod Frames
pub mod Backlog
pub mod Slots
pub mod Conserve
pub mod Handover
pub mod Ledger
pub mod Composed
pub mod Progress
pub mod Lost
pub mod Room
pub mod Setup
pub mod Threads
pub mod Waiters
pub mod Carried
pub mod Released
pub mod Entries
pub mod Reached
pub mod Quiet
pub mod Accounted
pub mod Solo
