-- ===== src/Window/Pending.antt =====
-- Writes of concurrent calls in any order that keeps those to one place apart.
use limen.Base.{
  ◌≡◌, refl, sym, ap, ◌∙◌, true, false, if◌then◌else◌, List, [], ◌∷◌, ◌++◌, ℤ, pos, eqb_ℤ, ltb_ℤ,
  add32, sum_of, arith,
}
use limen.Window.Defs.{store_min, store_max}
use limen.Window.Percentile.{PercentileWindow, store_at}
use limen.Window.AverageLaws.{store_min_comm, store_max_comm}
use limen.Window.Accesses.{
  Access, stores_at, lowers_to, raises_to, drops, clash, clashes, apart, store_at_comm,
}

module _ {D : Type 0} where
  -- One write.
  abbrev pub apply : Access → PercentileWindow D → PercentileWindow D
  apply (stores_at i v) w = record w {
    rtts = if ltb_ℤ i w.max_samples then store_at w.rtts i v else w.rtts;
  }
  apply (lowers_to rtt_ns) w = record w { min_rtt_ns = store_min w.min_rtt_ns rtt_ns }
  apply (raises_to inflight) w = record w { max_inflight = store_max w.max_inflight inflight }
  apply drops w = record w { did_drop = true }

  -- Writes, the first one first.
  abbrev pub run : PercentileWindow D → List Access → PercentileWindow D
  run w [] = w
  run w (c ∷ rest) = run (apply c w) rest

  stores_comm :
      (w : PercentileWindow D) (i j v u : ℤ)
      → eqb_ℤ i j ≡ false
      → apply (stores_at i v) (apply (stores_at j u) w)
        ≡ apply (stores_at j u) (apply (stores_at i v) w)
  stores_comm w i j v u e =
      ap (λ z. record w { rtts = z }) (ground (arith, store_at_comm w.rtts i j v u e))

  apply_comm :
      (c b : Access) (w : PercentileWindow D)
      → clash c b ≡ 0
      → apply c (apply b w) ≡ apply b (apply c w)
  apply_comm (stores_at i v) (stores_at j u) w h = stores_comm w i j v u (apart i j v u h)
  apply_comm (stores_at i v) _ w h = refl
  apply_comm (lowers_to a) (lowers_to b) w h =
      ap (λ z. record w { min_rtt_ns = z }) (store_min_comm w.min_rtt_ns b a)
  apply_comm (lowers_to a) _ w h = refl
  apply_comm (raises_to a) (raises_to b) w h =
      ap (λ z. record w { max_inflight = z }) (store_max_comm w.max_inflight b a)
  apply_comm (raises_to a) _ w h = refl
  apply_comm drops drops w h = refl
  apply_comm drops _ w h = refl

  run-append : (w : PercentileWindow D) (cs bs : List Access) → run w (cs ++ bs) ≡ run (run w cs) bs
  run-append w [] bs = refl
  run-append w (c ∷ cs) bs = run-append (apply c w) cs bs

  -- A write may come before others that it does not clash with.
  run-apply :
      (c : Access) (cs : List Access) (w : PercentileWindow D)
      → sum_of (clash c) cs ≡ 0
      → run (apply c w) cs ≡ apply c (run w cs)
  run-apply c [] w h = refl
  run-apply c (b ∷ cs) w h =
      ap (λ v. run v cs) (sym (apply_comm c b w (omega (arith, h))))
      ∙ run-apply c cs (apply b w) (omega (arith, h))

  pub run-first :
      (c : Access) (before behind : List Access) (w : PercentileWindow D)
      → sum_of (clash c) before ≡ 0
      → run w (before ++ c ∷ behind) ≡ run (apply c w) (before ++ behind)
  run-first c before behind w h =
      run-append w before (c ∷ behind)
      ∙ ap (λ v. run v behind) (sym (run-apply c before w h))
      ∙ sym (run-append (apply c w) before behind)

  run_comm :
      (cs bs : List Access) (w : PercentileWindow D)
      → clashes cs bs ≡ 0
      → run (run w cs) bs ≡ run (run w bs) cs
  run_comm [] bs w h = refl
  run_comm (c ∷ cs) bs w h =
      run_comm cs bs (apply c w) (omega (arith, h))
      ∙ ap (λ v. run v cs) (run-apply c bs w (omega (arith, h)))

  -- Writes that clash with none of those behind them may come last.
  pub run-last :
      (before cs behind : List Access) (w : PercentileWindow D)
      → clashes cs behind ≡ 0
      → run w (before ++ (cs ++ behind)) ≡ run (run w (before ++ behind)) cs
  run-last before cs behind w h =
      run-append w before (cs ++ behind)
      ∙ run-append (run w before) cs behind
      ∙ run_comm cs behind (run w before) h
      ∙ ap (λ v. run v cs) (sym (run-append w before behind))

  -- The counter is none of the writes' business.
  abbrev pub counted : PercentileWindow D → PercentileWindow D
  counted w = record w { sample_count = add32 w.sample_count (pos 1) }

  apply-counted : (c : Access) (w : PercentileWindow D) → apply c (counted w) ≡ counted (apply c w)
  apply-counted (stores_at i v) w = refl
  apply-counted _ w = refl

  pub run-counted :
      (w : PercentileWindow D) (cs : List Access) → run (counted w) cs ≡ counted (run w cs)
  run-counted w [] = refl
  run-counted w (c ∷ cs) = ap (λ v. run v cs) (apply-counted c w) ∙ run-counted (apply c w) cs

  apply-sample_count :
      (c : Access) (w : PercentileWindow D) → (apply c w).sample_count ≡ w.sample_count
  apply-sample_count (stores_at i v) w = refl
  apply-sample_count _ w = refl

  pub run-sample_count :
      (w : PercentileWindow D) (cs : List Access) → (run w cs).sample_count ≡ w.sample_count
  run-sample_count w [] = refl
  run-sample_count w (c ∷ cs) = run-sample_count (apply c w) cs ∙ apply-sample_count c w
