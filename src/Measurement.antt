-- ===== src/Measurement.antt =====
-- Aggregates over samples: include/limen/measurement.h, minimum_measurement.h, single_measurement.h,
-- exp_avg_measurement.h and src/exp_avg_measurement.cc.
pub mod Defs
pub mod Minimum
pub mod Single
pub mod ExpAvg
