-- ===== src/Gradient/Setup.antt =====
-- The setters of `Gradient2Limit::Builder`, but for the name and the meter provider.
use limen.Base.{ℤ, List, [], ◌∷◌, Option, none, some, ◌≡◌, ◌∙◌, refl, ap}
use limen.Double.{DoubleOps}
use limen.Gradient.Defs.{Builder, default_builder, default_sqrt_queue_size, build}

module _ {D : Type 0} where
  unfoldable pub with_initial_limit : ℤ → Builder D → Builder D
  with_initial_limit v b = record b { initial_limit = v }

  unfoldable pub with_min_limit : ℤ → Builder D → Builder D
  with_min_limit v b = record b { min_limit = v }

  unfoldable pub with_max_concurrency : ℤ → Builder D → Builder D
  with_max_concurrency v b = record b { max_concurrency = v }

  -- The constant overload of `QueueSize`.
  unfoldable pub with_queue_size : ℤ → Builder D → Builder D
  with_queue_size v b = record b { queue_size_fn = λ cap. v }

  unfoldable pub with_rtt_tolerance : D → Builder D → Builder D
  with_rtt_tolerance v b = record b { rtt_tolerance = v }

  unfoldable pub with_smoothing : D → Builder D → Builder D
  with_smoothing v b = record b { smoothing = v }

  unfoldable pub with_long_window : ℤ → Builder D → Builder D
  with_long_window v b = record b { long_window = v }

module _ (d : DoubleOps) where
  open d use {Double}

  -- The overload for a function: an empty one is replaced by the default.
  unfoldable pub with_queue_size_fn : Option (ℤ → ℤ) → Builder Double → Builder Double
  with_queue_size_fn none b = record b { queue_size_fn = default_sqrt_queue_size d }
  with_queue_size_fn (some fn) b = record b { queue_size_fn = fn }

  -- A call of a setter.
  pub data Setting : Type 0 where
    initial_limit min_limit max_concurrency queue_size long_window : ℤ → Setting
    queue_size_fn : Option (ℤ → ℤ) → Setting
    rtt_tolerance smoothing : Double → Setting

  abbrev pub apply : Setting → Builder Double → Builder Double
  apply (initial_limit v) b = with_initial_limit v b
  apply (min_limit v) b = with_min_limit v b
  apply (max_concurrency v) b = with_max_concurrency v b
  apply (queue_size v) b = with_queue_size v b
  apply (long_window v) b = with_long_window v b
  apply (queue_size_fn fn) b = with_queue_size_fn fn b
  apply (rtt_tolerance v) b = with_rtt_tolerance v b
  apply (smoothing v) b = with_smoothing v b

  -- A chain of calls on a new Builder, the latest first.
  unfoldable pub configure : List Setting → Builder Double
  configure [] = default_builder d
  configure (x ∷ earlier) = apply x (configure earlier)

  -- The latest call that says something, or else a default.
  abbrev pub latest : {A : Type 0} → (Setting → Option A) → A → List Setting → A
  latest reads other [] = other
  latest reads other (x ∷ earlier) = elim (reads x) [
    | none ↦ latest reads other earlier
    | some v ↦ v
  ]

  abbrev pub min_limit_of : Setting → Option ℤ
  min_limit_of (min_limit v) = some v
  min_limit_of _ = none

  abbrev pub max_limit_of : Setting → Option ℤ
  max_limit_of (max_concurrency v) = some v
  max_limit_of _ = none

  abbrev pub smoothing_of : Setting → Option Double
  smoothing_of (smoothing v) = some v
  smoothing_of _ = none

  abbrev pub tolerance_of : Setting → Option Double
  tolerance_of (rtt_tolerance v) = some v
  tolerance_of _ = none

  abbrev pub queue_size_of : Setting → Option (ℤ → ℤ)
  queue_size_of (queue_size v) = some (λ cap. v)
  queue_size_of (queue_size_fn none) = some (default_sqrt_queue_size d)
  queue_size_of (queue_size_fn (some fn)) = some fn
  queue_size_of _ = none

  -- A member that each call sets as `reads` says has the latest value.
  configure-latest :
      {A : Type 0} (member : Builder Double → A) (reads : Setting → Option A)
      → ((x : Setting) (b : Builder Double)
          → member (apply x b) ≡ elim (reads x) [ none ↦ member b | some v ↦ v ])
      → (calls : List Setting)
      → member (configure calls) ≡ latest reads (member (default_builder d)) calls
  unfolding configure
  configure-latest member reads h [] = refl
  configure-latest member reads h (x ∷ earlier) =
      h x (configure earlier)
      ∙ ap (λ a. elim (reads x) [ none ↦ a | some v ↦ v ]) (configure-latest member reads h earlier)

  -- What one call does to the five members that are read back.
  apply_lem :
      (x : Setting) (b : Builder Double)
      → ((apply x b).min_limit ≡ elim (min_limit_of x) [ none ↦ b.min_limit | some v ↦ v ])
        × ((apply x b).max_concurrency
            ≡ elim (max_limit_of x) [ none ↦ b.max_concurrency | some v ↦ v ])
        × ((apply x b).smoothing ≡ elim (smoothing_of x) [ none ↦ b.smoothing | some v ↦ v ])
        × ((apply x b).rtt_tolerance
            ≡ elim (tolerance_of x) [ none ↦ b.rtt_tolerance | some v ↦ v ])
        × ((apply x b).queue_size_fn
            ≡ elim (queue_size_of x) [ none ↦ b.queue_size_fn | some v ↦ v ])
  unfolding with_initial_limit with_min_limit with_max_concurrency with_queue_size
      with_rtt_tolerance with_smoothing with_long_window with_queue_size_fn
  apply_lem (initial_limit v) b = (refl, refl, refl, refl, refl)
  apply_lem (min_limit v) b = (refl, refl, refl, refl, refl)
  apply_lem (max_concurrency v) b = (refl, refl, refl, refl, refl)
  apply_lem (queue_size v) b = (refl, refl, refl, refl, refl)
  apply_lem (long_window v) b = (refl, refl, refl, refl, refl)
  apply_lem (queue_size_fn none) b = (refl, refl, refl, refl, refl)
  apply_lem (queue_size_fn (some fn)) b = (refl, refl, refl, refl, refl)
  apply_lem (rtt_tolerance v) b = (refl, refl, refl, refl, refl)
  apply_lem (smoothing v) b = (refl, refl, refl, refl, refl)

  -- However the setters are called, and in whatever order, the limit that `Build` makes has the floor,
  -- the ceiling, the smoothing, the tolerance and the queue size of the latest call that sets each,
  -- or the default: an empty queue size function counts as the default one, so the one that is
  -- kept can always be called.
  pub build-configure :
      (calls : List Setting)
      → let g = build d (configure calls) in
        (g.min_limit ≡ latest min_limit_of (default_builder d).min_limit calls)
        × (g.max_limit ≡ latest max_limit_of (default_builder d).max_concurrency calls)
        × (g.smoothing ≡ latest smoothing_of (default_builder d).smoothing calls)
        × (g.tolerance ≡ latest tolerance_of (default_builder d).rtt_tolerance calls)
        × (g.queue_size_fn ≡ latest queue_size_of (default_builder d).queue_size_fn calls)
  unfolding build
  build-configure calls = (
    configure-latest (λ b. b.min_limit) min_limit_of (λ x b. (apply_lem x b).0) calls,
    configure-latest (λ b. b.max_concurrency) max_limit_of (λ x b. (apply_lem x b).1) calls,
    configure-latest (λ b. b.smoothing) smoothing_of (λ x b. (apply_lem x b).2) calls,
    configure-latest (λ b. b.rtt_tolerance) tolerance_of (λ x b. (apply_lem x b).3) calls,
    configure-latest (λ b. b.queue_size_fn) queue_size_of (λ x b. (apply_lem x b).4) calls,
  )
