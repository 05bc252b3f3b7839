-- ===== src/Codel.antt =====
-- The CoDel admission filter: include/limen/codel_filter.h and src/codel_filter.cc.
pub mod Time
pub mod Filter
pub mod Config
pub mod History
pub mod Overload
pub mod Episodes
pub mod Schedule
pub mod Observe
