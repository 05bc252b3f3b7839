-- ===== src/Simple.antt =====
-- `SimpleLimiter`: a limiter that rejects once the limit is in flight.
pub mod Defs
pub mod Threads
pub mod Safety
pub mod Capacity
pub mod Loop
