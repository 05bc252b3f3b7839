-- ===== src/Examples/Windows.antt =====
-- The sample windows and the windowed limit.
use mathlib.Core.List.{Perm}
use mathlib.Core.List.Perm
use limen.Base.{
  Bool, List, ℕ, ◌≡◌, refl, true, false, [], ◌∷◌, ℤ, pos, ◌≤ℤ◌, ◌+ℤ◌, length, arith, All, ◌<◌,
  add64, int64,
}
use limen.Double.{thousandths}
use limen.Limit.Defs.{AbstractLimit, LimitOps, settable_limit}
use limen.Limit.Tracing.{Sample}
use limen.Window.Defs.{Entry, after_entries}
use limen.Window.Average.{AverageWindow, average_window, reset, tracked_rtt_ns}
use limen.Window.AverageLaws.{IsNonneg, after_entries-summary}
use limen.Window.Pieces.{
  Piece, counts, marks, sums, lowers, raises, pieces_of, all_pieces, after_pieces,
  after_pieces-Perm,
}
use limen.Window.Percentile.{PercentileWindow, percentile_window}
use limen.Window.Percentile
use limen.Window.Ranks.{within_ranks}
use limen.Window.PercentileLaws.{IsRank, nearest, recorded, after_entries-IsRank}
use limen.Windowed.Defs.{Windowed, end_time_ns, close_window, try_boundary}
use limen.Windowed.Config.{Builder}
use limen.Windowed.Boundary.{Fits, folds, tries, run, try_boundary-spaced}
use limen.Window.Stale.{ReadsAlike, ReadsAlike-IsAlike}
use limen.Windowed.Windows.{Refines}
use limen.Windowed.Runs.{after_samples, one_after, after_samples-Refines}

abbrev empty_window : AverageWindow
empty_window = record {
  sample_count = pos 0;
  sum_rtt_ns = pos 0;
  min_rtt_ns = pos 9223372036854775807;
  max_inflight = pos 0;
  did_drop = false;
}

abbrev slow : Entry
slow = record { rtt_ns = pos 9; inflight = pos 4; did_drop = true }

abbrev fast : Entry
fast = record { rtt_ns = pos 4; inflight = pos 6; did_drop = false }

-- The later call has counted itself before the earlier one has stored its in-flight count.
abbrev interleaved : List Piece
interleaved =
    marks
    ∷ raises (pos 4)
    ∷ lowers (pos 9)
    ∷ sums (pos 9)
    ∷ raises (pos 6)
    ∷ counts
    ∷ lowers (pos 4)
    ∷ sums (pos 4)
    ∷ counts
    ∷ []

abbrev last_two : List Piece
last_two = lowers (pos 4) ∷ sums (pos 4) ∷ counts ∷ []

turns : Perm interleaved (all_pieces (slow ∷ fast ∷ []))
unfolding pieces_of
turns = Perm.cons marks (
    Perm.cons (raises (pos 4)) (
      Perm.cons (lowers (pos 9))
        (Perm.cons (sums (pos 9)) (Perm.swap counts (raises (pos 6)) last_two))))

after_pieces-Perm_example :
    after_pieces empty_window interleaved
    ≡ after_entries average_window empty_window (slow ∷ fast ∷ [])
after_pieces-Perm_example = after_pieces-Perm empty_window (slow ∷ fast ∷ []) interleaved turns

nonneg : All IsNonneg (slow ∷ fast ∷ [])
nonneg = (omega arith, (omega arith, tt))

after_entries-summary_example :
    let v = after_entries average_window (reset empty_window) (slow ∷ fast ∷ []) in
    (average_window.sample_count v ≡ pos 2)
    × (tracked_rtt_ns v ≡ pos 6)
    × (average_window.candidate_rtt_ns v ≡ pos 4)
    × (pos 4 ≤ℤ tracked_rtt_ns v)
    × (average_window.max_inflight v ≡ pos 6)
    × (average_window.did_drop v ≡ true)
after_entries-summary_example =
    after_entries-summary empty_window slow (fast ∷ []) nonneg (omega arith) (omega arith)

-- Room for two, at half.
abbrev median : PercentileWindow thousandths.Double
median = record {
  percentile = pos 500;
  max_samples = pos 2;
  rtts = pos 0 ∷ pos 0 ∷ [];
  sample_count = pos 0;
  min_rtt_ns = pos 9223372036854775807;
  max_inflight = pos 0;
  did_drop = false;
}

after_entries-IsRank_example :
    let xs = recorded 2 (slow ∷ fast ∷ []) in
    IsRank thousandths xs (within_ranks (nearest thousandths (pos 500) (length xs)) (length xs)) (
      Percentile.tracked_rtt_ns thousandths (
        after_entries
          (percentile_window thousandths)
          (Percentile.reset thousandths median)
          (slow ∷ fast ∷ [])))
after_entries-IsRank_example =
    after_entries-IsRank thousandths median slow (fast ∷ []) (omega arith) refl (omega arith)
      (omega arith, omega arith)

abbrev config : Builder AverageWindow
config = record {
  min_window_time_ns = pos 100;
  max_window_time_ns = pos 200;
  window_size = pos 1;
  min_rtt_threshold_ns = pos 0;
  fresh_window = empty_window;
}

abbrev inner : AbstractLimit ℤ
inner = record { limit = pos 10; listeners = []; world = pos 0 }

abbrev bare : LimitOps (AbstractLimit ℤ)
bare = settable_limit

abbrev limit_of_two : Windowed AverageWindow (AbstractLimit ℤ)
limit_of_two = record {
  delegate = inner;
  slots = record { first = empty_window; second = empty_window };
  second_active = false;
  next_update_time_ns = pos 0;
  min_window_time_ns = pos 100;
  max_window_time_ns = pos 200;
  window_size = pos 1;
  min_rtt_threshold_ns = pos 0;
}

abbrev sample : ℕ → Sample
sample start = record {
  start_time_ns = pos start;
  rtt_ns = pos 30;
  inflight = pos 4;
  did_drop = false;
}

spaced : end_time_ns (sample 100) ≤ℤ end_time_ns (sample 10) +ℤ pos 100
unfolding ◌+ℤ◌ add64 int64
spaced = omega arith

-- It ends long before the clock does.
fits : (start : ℕ) → start < 1000 → Fits (pos 200) (sample start)
unfolding ◌+ℤ◌
fits start h = ground arith

try_boundary-spaced_example :
    let u =
      run average_window bare
        (close_window average_window bare limit_of_two (sample 10))
        (folds true (sample 40) ∷ tries true (sample 60) ∷ []) in
    try_boundary average_window bare true u (sample 100) ≡ u
try_boundary-spaced_example =
    try_boundary-spaced average_window bare limit_of_two (sample 10) (sample 100)
      (folds true (sample 40) ∷ tries true (sample 60) ∷ []) true (omega arith) (omega arith)
      (fits 10 (omega arith)) (tt, (fits 60 (omega arith), tt)) spaced

-- Percentile windows of two samples at half, whose arrays keep what they held.
abbrev stale : Builder (PercentileWindow thousandths.Double)
stale = record {
  min_window_time_ns = pos 100;
  max_window_time_ns = pos 200;
  window_size = pos 1;
  min_rtt_threshold_ns = pos 0;
  fresh_window = Percentile.init thousandths (pos 500) (pos 2);
}

abbrev calls : List (Bool × Sample)
calls = (true, sample 300) ∷ (false, sample 200) ∷ (true, sample 10) ∷ []

after_samples-Refines_example :
    Refines
      (percentile_window thousandths)
      bare
      stale
      (ReadsAlike thousandths (pos 500) (pos 2))
      (after_samples (percentile_window thousandths) bare stale inner calls)
      (one_after (percentile_window thousandths) bare stale inner calls)
after_samples-Refines_example =
    after_samples-Refines (percentile_window thousandths) bare stale inner
      (ReadsAlike thousandths (pos 500) (pos 2)) (ReadsAlike-IsAlike thousandths (pos 500) (pos 2))
      calls
