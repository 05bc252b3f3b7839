-- ===== src/Measurement/Minimum.antt =====
-- `MinimumMeasurement`.
use limen.Base.{
  ◌≡◌, refl, Bool, true, false, not, ◌||◌, List, [], ◌∷◌, if◌then◌else◌, All, arith, ◌⊎◌, inl, inr,
  Bool-cases,
}
use limen.Double.{DoubleOps}
use limen.Measurement.Defs.{MeasurementOps, zero_double, after_samples}

pub record Minimum (D : Type 0) : Type 0 where
  pub value : D
  pub has_sample : Bool

module _ (d : DoubleOps) where
  open d use {Double, lt}

  unfoldable pub init : Minimum Double
  init = record { value = zero_double d; has_sample = false }

  unfoldable pub add_sample : Minimum Double → Double → Minimum Double × Double
  add_sample m sample =
      let m' =
        (if not m.has_sample || lt sample m.value
          then record m { value = sample; has_sample = true }
          else m) in
      (m', m'.value)

  unfoldable pub reset : Minimum Double → Minimum Double
  reset m = record { value = zero_double d; has_sample = false }

  -- `Update` does nothing.
  abbrev pub minimum : MeasurementOps (Minimum Double) Double
  minimum = record {
    add_sample = add_sample;
    get = λ m. m.value;
    reset = reset;
    update = λ m operation. m;
  }

  -- One of the values is the given one.
  abbrev pub OneOf : Double → List Double → Type 0
  OneOf v [] = ⊥
  OneOf v (x ∷ xs) = (x ≡ v) ⊎ OneOf v xs

  abbrev pub NoneBelow : Double → List Double → Type 0
  NoneBelow v = All (λ x. lt x v ≡ false)

  -- What an order of doubles has, NaN included: `<` is transitive and nothing is below itself.
  module _ (lt_irrefl : (x : Double) → lt x x ≡ false)
      (lt_trans : (x y z : Double) → lt x y ≡ true → lt y z ≡ true → lt x z ≡ true) where
    NoneBelow-lt :
        (v w : Double) (xs : List Double) → lt w v ≡ true → NoneBelow v xs → NoneBelow w xs
    NoneBelow-lt v w [] h k = tt
    NoneBelow-lt v w (x ∷ xs) h k = (ground (arith, lt_trans x w v), NoneBelow-lt v w xs h k.1)

    -- The samples of a measurement since its reset, newest first.
    abbrev pub Least : Minimum Double → List Double → Type 0
    Least m xs = (m.has_sample ≡ true) × OneOf m.value xs × NoneBelow m.value xs

    add_sample-Least :
        (m : Minimum Double) (x : Double) (xs : List Double)
        → (m.has_sample ≡ false) × (xs ≡ []) ⊎ Least m xs
        → Least (add_sample m x).0 (x ∷ xs)
    unfolding add_sample
    add_sample-Least m x xs (inl (e, h)) = ground (arith, lt_irrefl x)
    add_sample-Least m x xs (inr k) = elim (Bool-cases (lt x m.value)) [
      | inl less ↦ ground (arith, lt_irrefl x, NoneBelow-lt m.value x xs less k.2)
      | inr more ↦ ground arith
    ]

    -- Since a reset, with at least one sample, the value is one of the samples and no sample is below
    -- it, whatever the samples' signs. It is assumed that `<` is transitive and that nothing is below
    -- itself.
    pub after_samples-Least :
        (m : Minimum Double) (x : Double) (past : List Double)
        → Least (after_samples minimum (reset m) (x ∷ past)) (x ∷ past)
    unfolding after_samples reset
    after_samples-Least m x [] = add_sample-Least (reset m) x [] (inl (refl, refl))
    after_samples-Least m x (y ∷ past) =
        add_sample-Least _ x (y ∷ past) (inr (after_samples-Least m y past))
