-- ===== src/Gradient.antt =====
-- The Gradient2 algorithm: include/limen/gradient2_limit.h and src/gradient2_limit.cc.
pub mod Defs
pub mod Cap
pub mod Published
pub mod Setup
pub mod Observe
