-- ===== src/Lib.antt =====
-- Limen: limits on concurrency that adapt to latency, the limiters that enforce them, and CoDel.
--
-- The program is a C++ library, include/limen/*.h and src/*.cc. A limit algorithm (`Limit`) says how
-- many calls may be in flight. A limiter (`Limiter`) asks it on each call, hands out a `SlotGuard`, and
-- on completion feeds the call's round-trip time back as a sample. Decorators stand between the two:
-- `WindowedLimit` collects samples into windows, `TracingLimitDecorator` logs them. Blocking limiters
-- wrap a limiter and let callers wait. `CodelFilter` stands alone: it decides which queued items to
-- drop by how long they have waited.
--
-- Files, with the code that each models:
--   Base, Base/*: the C++ integers on native numbers, with their wrap-around, and lists.
--   Double: the operations on `double` as a parameter, with the few laws that proofs use.
--   Codel/Filter, Codel/Config: src/codel_filter.cc (`ShouldDrop`, `OkToDrop`, `ControlLaw`, `Build`).
--     Codel/Time: absl's times as a parameter. Codel/History, Overload, Episodes, Schedule: runs of the
--     filter.
--   Limit/Defs: src/abstract_limit.cc, include/limen/limit.h, fixed_limit.h, settable_limit.h.
--     Limit/Publish: change callbacks. Limit/Tracing: src/tracing_limit_decorator.cc.
--   Measurement/*: include/limen/measurement.h and the three measurements.
--   Gradient/Defs, Setup: src/gradient2_limit.cc and its Builder's setters, in
--     include/limen/gradient2_limit.h. Gradient/Cap, Published: the range of its limit.
--   Window/*: include/limen/sample_window.h, src/average_sample_window.cc and
--     src/percentile_sample_window.cc. Window/Pieces: concurrent calls, an access at a time.
--     Window/Claims, Accesses, Pending, Effects, Interleaved: the same for the percentile window, by threads.
--   Windowed/*: src/windowed_limit.cc, and its Builder's setters (Setup). Window/Stale: what a window
--     that was reset keeps. Windowed/Windows, Runs: the limit against one growing window.
--   Limiter/Guard: include/limen/limiter.h. Limiter/Defs: src/abstract_limiter.cc.
--     Limiter/Account, Balance, Ledger, Kept: histories of calls on a limiter.
--   Simple/Defs: src/simple_limiter.cc. Simple/Threads, Safety: threads in its compare-and-swap loop.
--     Simple/Loop: the loop of one thread, with what it meets as an argument. Simple/Capacity: the
--     limiter over a history of calls.
--   Stack/*: SimpleLimiter over WindowedLimit over Gradient2Limit, and with CodelFilter in
--     examples/quickstart.cc (Quickstart, Served, Main, Immediate).
--   Partitioned/*: src/abstract_partitioned_limiter.cc and include/limen/partition.h. Threads, Moves,
--     Counters and Settled: threads in its gate, its reject delay and its release. Viewed, Solo: one
--     thread alone, next to the sequential gate. The others are about calls that do not overlap.
--   Blocking/*: src/blocking_limiter.cc and src/lifo_blocking_limiter.cc. Config and Setup: the Builders
--     and accessors. Defs: the pieces of a call. Frames: histories of such pieces in any order. Slots,
--     Conserve, Handover, Ledger: where the delegate's slots are. Composed, Room: an AbstractLimiter as
--     the delegate.
--     Progress, Lost: who is served, and a release that nobody notices. Threads: each access of a
--     thread as a step. Waiters, Carried, Released, Entries, Reached, Accounted, Quiet: what every such step
--     keeps. Solo: a call that nobody comes between, as a run of the steps.
--   Examples/*: the theorems at concrete inputs.
--
-- How code becomes a definition: a class's members are a record, a method is a function from the
-- state (and the clock's reading, where it reads the clock) to the state and the result. A method
-- that holds its mutex throughout is one step; where several threads interleave, the pieces between
-- accesses to shared state are the steps, and a history is a list of them with the newest first. In
-- Blocking/Frames the delegate's answer on the fast path and its entry in `active_slots_`, and
-- the erasure of an entry and the completion of its guard, are one step each; in Blocking/Threads
-- they are steps of their own. A counter that is an `int` or an `int64_t` wraps as written out by
-- add32, sub32, add64 and sub64. An int or int64_t sum outside the atomics that overflows has no
-- meaning in C++; in the measurements, the windows, the windowed limit and a sample's round-trip time
-- it is written as the same wrap-around. A compare-and-swap loop is modelled by the exchange that succeeds,
-- except in Simple/Threads, Partitioned/Threads and Window/Claims, where each access is a step,
-- and in Simple/Loop, where the loop is recursion on fuel: two more than the exchanges after which
-- the other threads leave the counter alone are enough. All other loops are structural recursion.
--
-- The metrics (Limiter/Observe, Partitioned/Observe, Codel/Observe, Gradient/Observe) are modelled
-- as the instruments that are registered and the rows and values that are emitted.
--
-- Not modelled: the OpenTelemetry library that takes those rows; the formatting of a trace line and
-- its default sink; the sleep of a caller that waits, which appears as a caller that may return at
-- any time. The arithmetic of doubles, absl's times and std::sqrt are parameters.
pub mod Base
pub mod Double
pub mod Limit
pub mod Measurement
pub mod Gradient
pub mod Window
pub mod Windowed
pub mod Limiter
pub mod Simple
pub mod Stack
pub mod Partitioned
pub mod Blocking
pub mod Examples
pub mod Codel
