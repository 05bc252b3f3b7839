-- ===== src/Gradient/Cap.antt =====
-- The cap stays in its configured range, for any arithmetic of doubles.
use limen.Base.{
  ◌≡◌, refl, Bool, true, false, ◌⊎◌, inl, inr, ℤ, pos, ◌≤ℤ◌, leb_ℤ, IsInt32, arith, if_elim,
}
use limen.Double.{DoubleOps, IsCast, min_double, max_double}
use limen.Gradient.Defs.{Gradient2, gradient, next_limit, update_positive, update}

-- The range is an int range, and is not empty.
pub record IsRange (lo hi : ℤ) : Type 0 where
  pub lo_int : IsInt32 lo
  pub hi_int : IsInt32 hi
  pub lo_le : lo ≤ℤ hi

module _ (d : DoubleOps) where
  open d use {Double, of_int, to_int, decimal, div, lt}

  -- An end of the range, or strictly between the ends. NaN is neither.
  abbrev pub Between : Double → Double → Double → Type 0
  Between lo hi x = (x ≡ lo) ⊎ (x ≡ hi) ⊎ (lt lo x ≡ true) × (lt x hi ≡ true)

  clamp-Between :
      (lo hi x : Double) → lt hi lo ≡ false → Between lo hi (max_double d lo (min_double d hi x))
  clamp-Between lo hi x h = ground arith

  -- The cap is within the limits that it was built with.
  abbrev pub IsCapped : Gradient2 Double → Type 0
  IsCapped g = Between (of_int g.min_limit) (of_int g.max_limit) g.estimated_limit

  -- The gradient lies in [0.5, 1], also for a quotient that is NaN. It is assumed that 1 < 0.5 fails.
  pub gradient-Between :
      (g : Gradient2 Double) (long short : Double)
      → lt (decimal 1 0) (decimal 5 1) ≡ false
      → Between (decimal 5 1) (decimal 1 0) (gradient d g long short)
  unfolding gradient
  gradient-Between g long short h = clamp-Between _ _ _ h

  module _ (laws : IsCast d) where
    pub Between-to_int :
        (lo hi : ℤ) (x : Double)
        → IsRange lo hi
        → Between (of_int lo) (of_int hi) x
        → (lo ≤ℤ to_int x) × (to_int x ≤ℤ hi)
    Between-to_int lo hi x r (inl e) =
        rw (e, laws.to_int-of_int lo r.lo_int) (omega (arith, r.lo_le))
    Between-to_int lo hi x r (inr (inl e)) =
        rw (e, laws.to_int-of_int hi r.hi_int) (omega (arith, r.lo_le))
    Between-to_int lo hi x r (inr (inr (l, h))) =
        (laws.le-to_int lo x r.lo_int l, laws.to_int-le x hi r.hi_int h)

    next_limit-Between :
        (g : Gradient2 Double) (slope queue : Double)
        → IsRange g.min_limit g.max_limit
        → Between (of_int g.min_limit) (of_int g.max_limit) (next_limit d g slope queue)
    unfolding next_limit
    next_limit-Between g slope queue r =
        clamp-Between _ _ _
          (ground (arith, laws.lt-of_int g.max_limit g.min_limit r.hi_int r.lo_int))

    -- What `Update` is to answer from the state `g`.
    pub record Capped (g : Gradient2 Double) (r : Gradient2 Double × ℤ) : Type 0 where
      pub same_min : r.0.min_limit ≡ g.min_limit
      pub same_max : r.0.max_limit ≡ g.max_limit
      pub within : IsCapped r.0
      pub published : r.1 ≡ to_int r.0.estimated_limit
      pub ge_min : g.min_limit ≤ℤ r.1
      pub le_max : r.1 ≤ℤ g.max_limit

    Capped-intro :
        (g g' : Gradient2 Double)
        → IsRange g.min_limit g.max_limit
        → g'.min_limit ≡ g.min_limit
        → g'.max_limit ≡ g.max_limit
        → Between (of_int g.min_limit) (of_int g.max_limit) g'.estimated_limit
        → Capped g (g', to_int g'.estimated_limit)
    Capped-intro g g' r lo hi k =
        let (below, above) = Between-to_int _ _ _ r k in
        record {
          same_min = lo;
          same_max = hi;
          within = rw (lo, hi) k;
          published = refl;
          ge_min = below;
          le_max = above;
        }

    update_positive-Capped :
        (g : Gradient2 Double) (rtt inflight : ℤ)
        → IsRange g.min_limit g.max_limit
        → IsCapped g
        → Capped g (update_positive d g rtt inflight)
    unfolding update_positive
    update_positive-Capped g rtt inflight r k =
        if_elim (Capped g) (lt (of_int inflight) (div g.estimated_limit (decimal 2 0)))
          (λ skip. Capped-intro g _ r refl refl k)
          (λ moved. Capped-intro g _ r refl refl (next_limit-Between g _ _ r))

    -- From a cap within its range, a sample leaves the limits alone and leads to a cap within the
    -- range, and what `Update` returns is that cap truncated, an int within the range: whatever the
    -- sample, the tolerance, the smoothing and the queue size, and also if a double is NaN. It is
    -- assumed that the range is a range of ints, that ints are doubles in their order, and that a cast
    -- to int truncates.
    pub update-Capped :
        (g : Gradient2 Double) (start rtt inflight : ℤ) (did_drop : Bool)
        → IsRange g.min_limit g.max_limit
        → IsCapped g
        → Capped g (update d g start rtt inflight did_drop)
    unfolding update
    update-Capped g start rtt inflight did_drop r k =
        if_elim (Capped g) (leb_ℤ rtt (pos 0)) (λ skip. Capped-intro g g r refl refl k)
          (λ moved. update_positive-Capped g rtt inflight r k)
