-- ===== src/Window.antt =====
-- Sample windows: include/limen/sample_window.h, average_sample_window.h, percentile_sample_window.h
-- and their sources.
pub mod Defs
pub mod Average
pub mod AverageLaws
pub mod Pieces
pub mod Stale
pub mod Percentile
pub mod Ranks
pub mod PercentileLaws
pub mod Sorting
pub mod Claims
pub mod Accesses
pub mod Pending
pub mod Effects
pub mod Interleaved
