-- ===== src/Measurement/Single.antt =====
-- `SingleMeasurement`.
use limen.Double.{DoubleOps}
use limen.Measurement.Defs.{MeasurementOps, zero_double}

pub record Single (D : Type 0) : Type 0 where
  pub value : D

module _ (d : DoubleOps) where
  open d use {Double}

  unfoldable pub init : Single Double
  init = record { value = zero_double d }

  unfoldable pub add_sample : Single Double → Double → Single Double × Double
  add_sample m sample = (record { value = sample }, sample)

  unfoldable pub reset : Single Double → Single Double
  reset m = record { value = zero_double d }

  unfoldable pub update : Single Double → (Double → Double) → Single Double
  update m operation = record { value = operation m.value }

  abbrev pub single : MeasurementOps (Single Double) Double
  single = record { add_sample = add_sample; get = λ m. m.value; reset = reset; update = update }
