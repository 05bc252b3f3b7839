-- ===== src/Window/Average.antt =====
-- `AverageSampleWindow`.
use limen.Base.{
  Bool, true, false, ℤ, pos, add32, add64, int64_max, eqb_ℤ, if◌then◌else◌, pos_part, neg_part,
  sub_ℕ, ◌/◌, ◌+◌,
}
use limen.Window.Defs.{Entry, WindowOps, store_min, store_max}

pub record AverageWindow : Type 0 where
  pub sample_count : ℤ
  pub sum_rtt_ns : ℤ
  pub min_rtt_ns : ℤ
  pub max_inflight : ℤ
  pub did_drop : Bool

-- The members' initial values.
unfoldable pub init : AverageWindow
init = record {
  sample_count = pos 0;
  sum_rtt_ns = pos 0;
  min_rtt_ns = int64_max;
  max_inflight = pos 0;
  did_drop = false;
}

unfoldable pub add_sample : AverageWindow → Entry → AverageWindow
add_sample w e = record {
  sample_count = add32 w.sample_count (pos 1);
  sum_rtt_ns = add64 w.sum_rtt_ns e.rtt_ns;
  min_rtt_ns = store_min w.min_rtt_ns e.rtt_ns;
  max_inflight = store_max w.max_inflight e.inflight;
  did_drop = if e.did_drop then true else w.did_drop;
}

-- `sum / count` of C++, which truncates towards zero.
unfoldable pub div_trunc : ℤ → ℤ → ℤ
div_trunc a b =
    sub_ℕ (pos_part a / pos_part b + neg_part a / neg_part b)
      (pos_part a / neg_part b + neg_part a / pos_part b)

unfoldable pub tracked_rtt_ns : AverageWindow → ℤ
tracked_rtt_ns w =
    if eqb_ℤ w.sample_count (pos 0) then pos 0 else div_trunc w.sum_rtt_ns w.sample_count

unfoldable pub reset : AverageWindow → AverageWindow
reset w = record {
  sample_count = pos 0;
  sum_rtt_ns = pos 0;
  min_rtt_ns = int64_max;
  max_inflight = pos 0;
  did_drop = false;
}

abbrev pub average_window : WindowOps AverageWindow
average_window = record {
  add_sample = add_sample;
  candidate_rtt_ns = λ w. w.min_rtt_ns;
  tracked_rtt_ns = tracked_rtt_ns;
  max_inflight = λ w. w.max_inflight;
  sample_count = λ w. w.sample_count;
  did_drop = λ w. w.did_drop;
  reset = reset;
}
