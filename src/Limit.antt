-- ===== src/Limit.antt =====
-- The limit algorithms' common machinery: include/limen/limit.h, abstract_limit.h, fixed_limit.h,
-- settable_limit.h, tracing_limit_decorator.h and src/abstract_limit.cc,
-- src/tracing_limit_decorator.cc.
pub mod Defs
pub mod Publish
pub mod Tracing
