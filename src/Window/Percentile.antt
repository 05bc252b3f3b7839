-- ===== src/Window/Percentile.antt =====
-- `PercentileSampleWindow`.
use limen.Base.{
  Bool, true, false, List, [], ◌∷◌, ℤ, pos, negsuc, pos_part, add32, int64_max, eqb_ℤ, ltb_ℤ, leb_ℤ,
  int32, sub32, min_ℤ, max_ℤ, if◌then◌else◌, set, take, get_or, length, replicate,
}
use limen.Double.{DoubleOps}
use limen.Window.Defs.{Entry, WindowOps, store_min, store_max}

pub record PercentileWindow (D : Type 0) : Type 0 where
  pub percentile : D
  pub max_samples : ℤ
  pub rtts : List ℤ
  pub sample_count : ℤ
  pub min_rtt_ns : ℤ
  pub max_inflight : ℤ
  pub did_drop : Bool

-- std::ranges::sort: the values in ascending order.
unfoldable pub insert : ℤ → List ℤ → List ℤ
insert x [] = x ∷ []
insert x (y ∷ ys) = if leb_ℤ x y then x ∷ y ∷ ys else y ∷ insert x ys

unfoldable pub sort : List ℤ → List ℤ
sort [] = []
sort (x ∷ xs) = insert x (sort xs)

-- The store `rtts_[index]`. A negative index, which the code has only after the counter has wrapped,
-- is out of bounds and stores nothing here.
unfoldable pub store_at : List ℤ → ℤ → ℤ → List ℤ
store_at rtts (pos index) rtt_ns = set rtts index rtt_ns
store_at rtts (negsuc n) rtt_ns = rtts

module _ (d : DoubleOps) where
  open d use {Double, of_int, lround, mul}

  unfoldable pub init : Double → ℤ → PercentileWindow Double
  init percentile max_samples_per_window = record {
    percentile = percentile;
    max_samples = max_samples_per_window;
    rtts = replicate (pos_part max_samples_per_window) (pos 0);
    sample_count = pos 0;
    min_rtt_ns = int64_max;
    max_inflight = pos 0;
    did_drop = false;
  }

  unfoldable pub add_sample : PercentileWindow Double → Entry → PercentileWindow Double
  add_sample w e = record w {
    sample_count = add32 w.sample_count (pos 1);
    rtts =
        if ltb_ℤ w.sample_count w.max_samples
        then store_at w.rtts w.sample_count e.rtt_ns
        else w.rtts;
    min_rtt_ns = store_min w.min_rtt_ns e.rtt_ns;
    max_inflight = store_max w.max_inflight e.inflight;
    did_drop = if e.did_drop then true else w.did_drop;
  }

  -- The zero-based rank, clamped to the buffer.
  unfoldable pub clamped_index : PercentileWindow Double → ℤ → ℤ → ℤ
  clamped_index w usable size =
      let rtt_index = int32 (lround (mul (of_int usable) w.percentile)) in
      max_ℤ (pos 0) (min_ℤ (sub32 rtt_index (pos 1)) (sub32 (int32 size) (pos 1)))

  -- The snapshot of the loop over `i < usable`, sorted.
  unfoldable pub sort_buffer : PercentileWindow Double → ℤ → List ℤ
  sort_buffer w usable = sort (take (pos_part usable) w.rtts)

  unfoldable pub tracked_rtt_ns : PercentileWindow Double → ℤ
  tracked_rtt_ns w =
      let usable = min_ℤ w.sample_count w.max_samples in
      let buffer = sort_buffer w usable in
      let clamped = clamped_index w usable (pos (length buffer)) in
      if eqb_ℤ w.sample_count (pos 0) then pos 0 else get_or buffer (pos_part clamped) (pos 0)

  -- The array keeps its stale values.
  unfoldable pub reset : PercentileWindow Double → PercentileWindow Double
  reset w = record w {
    sample_count = pos 0;
    min_rtt_ns = int64_max;
    max_inflight = pos 0;
    did_drop = false;
  }

  abbrev pub percentile_window : WindowOps (PercentileWindow Double)
  percentile_window = record {
    add_sample = add_sample;
    candidate_rtt_ns = λ w. w.min_rtt_ns;
    tracked_rtt_ns = tracked_rtt_ns;
    max_inflight = λ w. w.max_inflight;
    sample_count = λ w. w.sample_count;
    did_drop = λ w. w.did_drop;
    reset = reset;
  }
