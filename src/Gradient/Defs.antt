-- ===== src/Gradient/Defs.antt =====
-- `Gradient2Limit`: its configuration, its per-window state, and `Update`. The histograms are not
-- modelled: they are written and never read.
use limen.Base.{Bool, if◌then◌else◌, ℤ, pos, leb_ℤ, max_ℤ}
use limen.Double.{DoubleOps, min_double, max_double}
use limen.Measurement.ExpAvg.{ExpAvg}
use limen.Measurement.ExpAvg

-- What the Builder accumulates.
pub record Builder (D : Type 0) : Type 0 where
  pub initial_limit : ℤ
  pub min_limit : ℤ
  pub max_concurrency : ℤ
  pub queue_size_fn : ℤ → ℤ
  pub rtt_tolerance : D
  pub smoothing : D
  pub long_window : ℤ

pub record Gradient2 (D : Type 0) : Type 0 where
  pub estimated_limit : D
  pub long_rtt : ExpAvg D
  pub min_limit : ℤ
  pub max_limit : ℤ
  pub queue_size_fn : ℤ → ℤ
  pub smoothing : D
  pub tolerance : D

module _ (d : DoubleOps) where
  open d use {Double, of_int, to_int, decimal, add, sub, mul, div, lt, sqrt, ceil}

  unfoldable pub default_sqrt_queue_size : ℤ → ℤ
  default_sqrt_queue_size current_limit =
      let root = sqrt (of_int (max_ℤ (pos 0) current_limit)) in max_ℤ (pos 1) (to_int (ceil root))

  -- The Builder's members' initial values.
  unfoldable pub default_builder : Builder Double
  default_builder = record {
    initial_limit = pos 20;
    min_limit = pos 20;
    max_concurrency = pos 200;
    queue_size_fn = default_sqrt_queue_size;
    rtt_tolerance = decimal 15 1;
    smoothing = decimal 2 1;
    long_window = pos 600;
  }

  -- `Build` and the constructor; the base class starts at the initial limit.
  unfoldable pub build : Builder Double → Gradient2 Double
  build b = record {
    estimated_limit = of_int b.initial_limit;
    long_rtt = ExpAvg.init d b.long_window (pos 10);
    min_limit = b.min_limit;
    max_limit = b.max_concurrency;
    queue_size_fn = b.queue_size_fn;
    smoothing = b.smoothing;
    tolerance = b.rtt_tolerance;
  }

  -- std::max(0.5, std::min(1.0, tolerance * long_rtt / short_rtt))
  unfoldable pub gradient : Gradient2 Double → Double → Double → Double
  gradient g long_rtt short_rtt =
      max_double d (decimal 5 1)
        (min_double d (decimal 1 0) (div (mul g.tolerance long_rtt) short_rtt))

  -- The long-term measurement, compressed by 5 percent where it is more than twice the short one.
  unfoldable pub drift_correct : ExpAvg Double → Double → Double → ExpAvg Double
  drift_correct m long_rtt short_rtt =
      if lt (decimal 2 0) (div long_rtt short_rtt)
      then ExpAvg.update d m (λ v. mul v (decimal 95 2))
      else m

  -- The blend of the old and the proposed cap, clamped to the configured range.
  unfoldable pub next_limit : Gradient2 Double → Double → Double → Double
  next_limit g gradient queue_size =
      let proposed = add (mul g.estimated_limit gradient) queue_size in
      let blended =
        add (mul g.estimated_limit (sub (decimal 1 0) g.smoothing)) (mul proposed g.smoothing) in
      max_double d (of_int g.min_limit) (min_double d (of_int g.max_limit) blended)

  -- The part of `Update` behind the test for a positive round-trip time.
  unfoldable pub update_positive : Gradient2 Double → ℤ → ℤ → Gradient2 Double × ℤ
  update_positive g rtt_ns inflight =
      let short_rtt = of_int rtt_ns in
      let (added, long_rtt) = ExpAvg.add_sample d g.long_rtt short_rtt in
      let queue_size = of_int (g.queue_size_fn (to_int g.estimated_limit)) in
      let g' = record g { long_rtt = drift_correct added long_rtt short_rtt } in
      let new_limit = next_limit g (gradient g long_rtt short_rtt) queue_size in
      if lt (of_int inflight) (div g.estimated_limit (decimal 2 0))
      then (g', to_int g.estimated_limit)
      else (record g' { estimated_limit = new_limit }, to_int new_limit)

  -- start_time_ns, rtt_ns, inflight, did_drop
  unfoldable pub update : Gradient2 Double → ℤ → ℤ → ℤ → Bool → Gradient2 Double × ℤ
  update g start_time_ns rtt_ns inflight did_drop =
      if leb_ℤ rtt_ns (pos 0)
      then (g, to_int g.estimated_limit)
      else update_positive g rtt_ns inflight
