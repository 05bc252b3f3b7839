-- ===== src/Stack.antt =====
-- Components put together: `SimpleLimiter` over `WindowedLimit` over `Gradient2Limit`.
pub mod Defs
pub mod Range
pub mod Quickstart
pub mod Served
pub mod Main
pub mod Immediate
