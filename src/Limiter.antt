-- ===== src/Limiter.antt =====
-- Admission: include/limen/limiter.h (`Limiter`, `SlotGuard`), abstract_limiter.h and
-- src/abstract_limiter.cc.
pub mod Guard
pub mod Once
pub mod Observe
pub mod Defs
pub mod Account
pub mod Kept
pub mod Balance
pub mod Ledger
