-- ===== src/Stack/Main.antt =====
-- `main` of examples/quickstart.cc, from the Builders to the counts that it prints.
use limen.Base.{ℕ, ◌≡◌, ◌<◌, ◌^◌, refl, ℤ, pos, ◌+ℤ◌, ◌≤ℤ◌, List, some, length, arith, true, ◌+◌}
use limen.Double.{DoubleOps, IsCast}
use limen.Limiter.Defs.{init}
use limen.Gradient.Defs.{Builder}
use limen.Gradient.Defs as GradientDefs
use limen.Gradient.Setup.{with_initial_limit, with_min_limit, with_max_concurrency}
use limen.Gradient.Published.{IsSound}
use limen.Window.Defs.{WindowOps}
use limen.Windowed.Config as WindowedConfig
use limen.Simple.Defs.{with_limit, with_id}
use limen.Simple.Defs as SimpleDefs
use limen.Codel.Time.{AbslTime}
use limen.Codel.Filter.{Codel}
use limen.Codel.Filter as CodelFilter
use limen.Codel.Config.{build-construct}
use limen.Codel.Config as CodelConfig
use limen.Stack.Defs.{stack_limit, fresh_stack}
use limen.Stack.Range.{Published, sample-Published, fresh-Published, limit-range}
use limen.Stack.Quickstart.{
  Reading, Demo, requests, gradient2, Chain, windowed, front, filter, begin, codel_builder, main,
}
use limen.Stack.Served.{Tally, recount, requests-Tally}

gradient2-IsSound : (d : DoubleOps) → IsSound (gradient2 d)
unfolding gradient2 with_max_concurrency with_min_limit with_initial_limit
    GradientDefs.default_builder
gradient2-IsSound d = record {
  range = record { lo_int = omega arith; hi_int = omega arith; lo_le = omega arith };
  initial_int = omega arith;
  ge_min = omega arith;
  le_max = omega arith;
}

windowed-fresh_stack :
    (d : DoubleOps) {V W : Type 0} (window : WindowOps V) (fresh : V) (world : W)
    → windowed d fresh world
      ≡ some (fresh_stack d window (gradient2 d) (WindowedConfig.default_builder fresh) world)
unfolding windowed WindowedConfig.build WindowedConfig.default_builder fresh_stack
windowed-fresh_stack d window fresh world = refl

front-init :
    (d : DoubleOps) {V W : Type 0} (chain : Chain d V W) → front d chain ≡ some (init chain)
unfolding front with_limit with_id SimpleDefs.build SimpleDefs.default_builder
front-init d chain = refl

filter-init :
    (a : AbslTime) (milliseconds : ℕ → a.Duration)
    → a.duration_lt a.zero_duration (milliseconds 5) ≡ true
    → a.duration_lt a.zero_duration (milliseconds 100) ≡ true
    → filter a milliseconds ≡ some (CodelFilter.init a (milliseconds 5) (milliseconds 100))
unfolding filter codel_builder CodelConfig.construct CodelConfig.with_id CodelConfig.with_interval
    CodelConfig.with_target CodelConfig.default_builder CodelFilter.init
filter-init a milliseconds t i =
    let e = (build-construct a tt (codel_builder a milliseconds)).1 (t, i) in rw (filter, e) refl

module _ (a : AbslTime) (milliseconds : ℕ → a.Duration) (d : DoubleOps) (laws : IsCast d)
    {V W : Type 0} (window : WindowOps V) (fresh : V) (world : W) where
  abbrev pub chain : Chain d V W
  chain = fresh_stack d window (gradient2 d) (WindowedConfig.default_builder fresh) world

  abbrev filter_made : Codel a
  filter_made = CodelFilter.init a (milliseconds 5) (milliseconds 100)

  -- The state of the program's end.
  abbrev pub ended : List (Reading a) → Demo a (Chain d V W)
  ended = requests a (stack_limit d window) (begin a milliseconds d window (init chain) filter_made)

  pub main-ended :
      (readings : List (Reading a))
      → a.duration_lt a.zero_duration (milliseconds 5) ≡ true
      → a.duration_lt a.zero_duration (milliseconds 100) ≡ true
      → main a milliseconds d window fresh world readings ≡ some (ended readings)
  unfolding main
  main-ended readings t i =
      rw
        (
          windowed-fresh_stack d window fresh world,
          front-init d chain,
          filter-init a milliseconds t i,
        )
        refl

  at_least_one : (z : ℤ) → pos 10 ≤ℤ z → pos 1 ≤ℤ z
  at_least_one z h = ground arith

  abbrev Kept : Chain d V W → Type 0
  Kept = Published d window laws (gradient2 d) (gradient2-IsSound d)

  limit-in_range :
      (t : Chain d V W)
      → Kept t
      → let cap = (stack_limit d window).get_limit t in (pos 10 ≤ℤ cap) × (cap ≤ℤ pos 200)
  unfolding gradient2 with_max_concurrency with_min_limit with_initial_limit
  limit-in_range t h = limit-range d window laws (gradient2 d) (gradient2-IsSound d) t h

  ended-Tally :
      (readings : List (Reading a))
      → length readings < 2 ^ 31
      → Tally a
          (stack_limit d window)
          Kept
          (sample-Published d window laws (gradient2 d) (gradient2-IsSound d))
          (λ t h. at_least_one _ (limit-in_range t h).0)
          (length readings)
          (ended readings)
  unfolding init
  ended-Tally readings lt = recount a (stack_limit d window) Kept _ _ _ _ _ (omega arith) (
      requests-Tally a (stack_limit d window) Kept _ _ 0 _ readings (omega (arith, lt)) (record {
        k = 0;
        m = 0;
        all = refl;
        admitted_is = refl;
        dropped_is = refl;
        rejected_is = refl;
        inflight_is = refl;
        kept =
            fresh-Published d window laws (gradient2 d) (gradient2-IsSound d)
              (WindowedConfig.default_builder fresh) world;
      }))

  sum_lem : (x y : ℤ) (k m n : ℕ) → k + m ≡ n → x ≡ pos k → y ≡ pos m → x +ℤ y ≡ pos n
  unfolding ◌+ℤ◌
  sum_lem x y k m n e f g = ground arith

  -- Each request is counted.
  pub ended-sum :
      (readings : List (Reading a))
      → length readings < 2 ^ 31
      → (ended readings).admitted +ℤ (ended readings).dropped ≡ pos (length readings)
  ended-sum readings lt =
      let h = ended-Tally readings lt in sum_lem _ _ h.k h.m _ h.all h.admitted_is h.dropped_is

  -- The example program over fewer than 2^31 requests, one after another: its Builders' values are
  -- accepted, no request is rejected, each is counted once, as admitted or as dropped, no slot is out at
  -- the end, and the limit that it prints lies between 10 and 200. Its arithmetic of doubles is assumed to
  -- have ints in their order and a cast that truncates, and 5 and 100 milliseconds to be positive.
  pub main-counts :
      (readings : List (Reading a))
      → length readings < 2 ^ 31
      → a.duration_lt a.zero_duration (milliseconds 5) ≡ true
      → a.duration_lt a.zero_duration (milliseconds 100) ≡ true
      → (s : Demo a (Chain d V W)) × (main a milliseconds d window fresh world readings ≡ some s)
        × (s.rejected ≡ pos 0)
        × (s.admitted +ℤ s.dropped ≡ pos (length readings))
        × (s.limiter.inflight ≡ pos 0)
        × (pos 10 ≤ℤ (stack_limit d window).get_limit s.limiter.limit)
        × ((stack_limit d window).get_limit s.limiter.limit ≤ℤ pos 200)
  main-counts readings lt t i =
      let h = ended-Tally readings lt in
      let (low, high) = limit-in_range _ h.kept in
      (
        ended readings,
        main-ended readings t i,
        h.rejected_is,
        ended-sum readings lt,
        h.inflight_is,
        low,
        high,
      )
