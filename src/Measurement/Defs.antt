-- ===== src/Measurement/Defs.antt =====
-- The interface of the measurements.
use limen.Base.{List, [], ◌∷◌}
use limen.Double.{DoubleOps}

-- `Measurement`, over states `M` and doubles `D`. `Add` also answers the value.
pub record MeasurementOps (M D : Type 0) : Type 0 where
  pub add_sample : M → D → M × D
  pub get : M → D
  pub reset : M → M
  pub update : M → (D → D) → M

-- The members' initial value, 0.0.
abbrev pub zero_double : (d : DoubleOps) → d.Double
zero_double d = d.decimal 0 0

-- A measurement after a sequence of samples, newest first.
unfoldable pub after_samples : {M D : Type 0} → MeasurementOps M D → M → List D → M
after_samples ops m [] = m
after_samples ops m (x ∷ past) = (ops.add_sample (after_samples ops m past) x).0
