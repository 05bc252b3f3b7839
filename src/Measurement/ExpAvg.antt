-- ===== src/Measurement/ExpAvg.antt =====
-- `ExpAvgMeasurement`: a plain average while it warms up, then an exponential one.
use limen.Base.{
  ◌≡◌, List, [], ◌∷◌, ℤ, pos, ◌+ℤ◌, ltb_ℤ, if◌then◌else◌, length, ◌⊎◌, arith, inl, false, refl,
  add32,
}
use limen.Double.{DoubleOps}
use limen.Measurement.Defs.{MeasurementOps, zero_double, after_samples}

pub record ExpAvg (D : Type 0) : Type 0 where
  pub value : D
  pub sum : D
  pub count : ℤ
  pub window : ℤ
  pub warmup_window : ℤ

module _ (d : DoubleOps) where
  open d use {Double, of_int, decimal, add, sub, mul, div}

  unfoldable pub init : ℤ → ℤ → ExpAvg Double
  init window warmup_window = record {
    value = zero_double d;
    sum = zero_double d;
    count = pos 0;
    window = window;
    warmup_window = warmup_window;
  }

  -- 2.0 / (n + 1)
  unfoldable pub steady_state_factor : ℤ → Double
  steady_state_factor n = div (decimal 2 0) (of_int (add32 n (pos 1)))

  -- A sample while fewer than `warmup_window_` have been counted.
  unfoldable pub add_warm : ExpAvg Double → Double → ExpAvg Double
  add_warm m sample =
      let count = m.count +ℤ pos 1 in
      let sum = add m.sum sample in
      record m { count = count; sum = sum; value = div sum (of_int count) }

  -- A sample after that.
  unfoldable pub add_smooth : ExpAvg Double → Double → ExpAvg Double
  add_smooth m sample =
      let factor = steady_state_factor m.window in
      record m { value = add (mul m.value (sub (decimal 1 0) factor)) (mul sample factor) }

  unfoldable pub add_sample : ExpAvg Double → Double → ExpAvg Double × Double
  add_sample m sample =
      let m' = (if ltb_ℤ m.count m.warmup_window then add_warm m sample else add_smooth m sample) in
      (m', m'.value)

  unfoldable pub reset : ExpAvg Double → ExpAvg Double
  reset m = record m { value = zero_double d; sum = zero_double d; count = pos 0 }

  unfoldable pub update : ExpAvg Double → (Double → Double) → ExpAvg Double
  update m operation = record m { value = operation m.value }

  abbrev pub exp_avg : MeasurementOps (ExpAvg Double) Double
  exp_avg = record { add_sample = add_sample; get = λ m. m.value; reset = reset; update = update }

  -- The sum of samples, the oldest (the last of the list) first.
  abbrev pub total : List Double → Double
  total [] = zero_double d
  total (x ∷ past) = add (total past) x

  -- What the measurement reports after samples since a reset: their mean during the warmup, and from
  -- then on the blend of the previous report and the sample.
  abbrev pub reported : ℤ → ℤ → List Double → Double
  reported window warmup [] = zero_double d
  reported window warmup (x ∷ past) =
      let factor = steady_state_factor window in
      let before = reported window warmup past in
      if ltb_ℤ (pos (length past)) warmup
      then div (total (x ∷ past)) (of_int (pos (length (x ∷ past))))
      else add (mul before (sub (decimal 1 0) factor)) (mul x factor)

  -- The measurement counts the samples until the warmup is over.
  record IsAverage (window warmup : ℤ) (past : List Double) (m : ExpAvg Double) : Type 0 where
    same_window : m.window ≡ window
    same_warmup : m.warmup_window ≡ warmup
    says : m.value ≡ reported window warmup past
    phase :
        (m.count ≡ pos (length past)) × (m.sum ≡ total past)
        ⊎ (ltb_ℤ m.count warmup ≡ false) × (ltb_ℤ (pos (length past)) warmup ≡ false)

  add_sample-IsAverage :
      (window warmup : ℤ) (past : List Double) (m : ExpAvg Double) (x : Double)
      → IsAverage window warmup past m
      → IsAverage window warmup (x ∷ past) (add_sample m x).0
  unfolding add_sample add_warm add_smooth ◌+ℤ◌
  add_sample-IsAverage window warmup past m x k = ground arith

  after_samples-IsAverage :
      (m : ExpAvg Double) (past : List Double)
      → IsAverage m.window m.warmup_window past (after_samples exp_avg (reset m) past)
  unfolding after_samples reset
  after_samples-IsAverage m [] = record {
    same_window = refl;
    same_warmup = refl;
    says = refl;
    phase = inl (refl, refl);
  }
  after_samples-IsAverage m (x ∷ past) =
      add_sample-IsAverage m.window m.warmup_window past _ x (after_samples-IsAverage m past)

  -- After a reset the measurement reports the mean of the samples for as long as fewer than the warmup
  -- had been added before the newest, and then the exponential blend, for any arithmetic of doubles.
  pub after_samples-reported :
      (m : ExpAvg Double) (past : List Double)
      → exp_avg.get (after_samples exp_avg (reset m) past) ≡ reported m.window m.warmup_window past
  after_samples-reported m past = (after_samples-IsAverage m past).says
