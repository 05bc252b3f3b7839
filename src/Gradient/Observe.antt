-- ===== src/Gradient/Observe.antt =====
-- The histograms of `Gradient2Limit`: their views, and what each `Update` records.
use limen.Base.{
  false, true, Bool, List, [], ◌∷◌, ℤ, pos, leb_ℤ, Option, none, some, String, if◌then◌else◌,
}
use limen.Double.{DoubleOps}
use limen.Measurement.ExpAvg
use limen.Limiter.Observe.{Instrument, histogram}
use limen.Gradient.Defs.{Gradient2}

-- An instrument with its bucket boundaries.
pub record View (D : Type 0) : Type 0 where
  pub instrument : Instrument
  pub boundaries : List D

-- One value for each histogram.
pub record Recorded (D : Type 0) : Type 0 where
  pub min_rtt : D
  pub min_window_rtt : D
  pub queue_size : D

module _ (d : DoubleOps) where
  open d use {Double, of_int, to_int, decimal}

  unfoldable pub latency_buckets_ns : List Double
  latency_buckets_ns =
      decimal 1000 0
      ∷ decimal 10000 0
      ∷ decimal 100000 0
      ∷ decimal 1000000 0
      ∷ decimal 10000000 0
      ∷ decimal 100000000 0
      ∷ decimal 1000000000 0
      ∷ decimal 10000000000 0
      ∷ []

  unfoldable pub queue_size_buckets : List Double
  queue_size_buckets =
      decimal 1 0
      ∷ decimal 4 0
      ∷ decimal 10 0
      ∷ decimal 50 0
      ∷ decimal 100 0
      ∷ decimal 500 0
      ∷ decimal 1000 0
      ∷ []

  abbrev histogram_view : String → String → String → List Double → View Double
  histogram_view name description unit boundaries = record {
    instrument = record { kind = histogram; name = name; description = description; unit = unit };
    boundaries = boundaries;
  }

  -- Without a meter provider there are none.
  unfoldable pub register_histograms : Bool → List (View Double)
  register_histograms false = []
  register_histograms true =
      histogram_view "limen.min_rtt" "Long-term baseline RTT, per window." "ns" latency_buckets_ns
      ∷ histogram_view "limen.min_window_rtt" "Short-window RTT measurement, per window." "ns"
          latency_buckets_ns
      ∷ histogram_view "limen.queue_size"
          "Algorithm queue-size term (additive-increase amount), per window." "1" queue_size_buckets
      ∷ []

  -- What an `Update` records where the histograms are registered, before the drift correction and
  -- whether or not the cap is left alone.
  unfoldable pub record_histograms : Gradient2 Double → ℤ → Option (Recorded Double)
  record_histograms g rtt_ns =
      let (added, long_rtt) = ExpAvg.add_sample d g.long_rtt (of_int rtt_ns) in
      if leb_ℤ rtt_ns (pos 0)
      then none
      else some (record {
        min_rtt = long_rtt;
        min_window_rtt = of_int rtt_ns;
        queue_size = of_int (g.queue_size_fn (to_int g.estimated_limit));
      })
