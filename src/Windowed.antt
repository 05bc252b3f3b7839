-- ===== src/Windowed.antt =====
-- `WindowedLimit`: include/limen/windowed_limit.h and src/windowed_limit.cc.
pub mod Config
pub mod Defs
pub mod Boundary
pub mod Windows
pub mod Runs
pub mod Drive
pub mod Setup
