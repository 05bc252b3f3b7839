-- ===== src/Stack/Range.antt =====
-- The composition of the components' bounds: from latency samples to slots handed out.
use limen.Base.{
  ℕ, ◌≡◌, refl, ◌≤◌, ◌<◌, ◌^◌, ℤ, pos, ◌≤ℤ◌, Bool, Option, String, List, [], arith, IsInt32,
}
use limen.Double.{DoubleOps, IsCast}
use limen.Limit.Defs.{AbstractLimit, get_limit, starting_at}
use limen.Gradient.Defs.{Gradient2, Builder}
use limen.Gradient.Published.{
  IsSound, IsPublished, gradient2_on_sample-IsPublished, after_samples, after_samples-IsPublished,
  capped-to_int,
}
use limen.Window.Defs.{WindowOps}
use limen.Windowed.Defs
use limen.Windowed.Defs.{Windowed}
use limen.Windowed.Config
use limen.Windowed.Drive.{on_sample-keeps}
use limen.Limiter.Account.{Op, in_flight}
use limen.Limiter.Kept.{after-keeps}
use limen.Simple.Defs.{simple_gate}
use limen.Simple.Capacity.{simple_gate-Keeps, after-in_flight}
use limen.Stack.Defs.{gradient2_limit, stack_limit, fresh_stack, run_stack}

module _ (d : DoubleOps) {W V : Type 0} (window : WindowOps V) (laws : IsCast d)
    (b : Builder d.Double) (sound : IsSound b) where
  -- The cap under the windows is published, and within its range.
  abbrev pub Published : Windowed V (Gradient2 d.Double × AbstractLimit W) → Type 0
  Published t = IsPublished d b t.delegate

  pub sample-Published :
      (t : Windowed V (Gradient2 d.Double × AbstractLimit W)) (start rtt inflight : ℤ)
      (did_drop : Bool)
      → Published t
      → Published ((stack_limit d window).on_sample t start rtt inflight did_drop)
  sample-Published t start rtt inflight did_drop h =
      on_sample-keeps window (gradient2_limit d) (IsPublished d b)
        (λ l start rtt inflight did_drop p.
          gradient2_on_sample-IsPublished d laws b l _ sound.range p)
        _ t _ h

  pub fresh-Published :
      (windows : Config.Builder V) (world : W) → Published (fresh_stack d window b windows world)
  unfolding fresh_stack starting_at get_limit after_samples Config.init
  fresh-Published windows world =
      after_samples-IsPublished d laws b (starting_at b.initial_limit world) [] sound refl

  pub limit-range :
      (t : Windowed V (Gradient2 d.Double × AbstractLimit W))
      → Published t
      → (b.min_limit ≤ℤ (stack_limit d window).get_limit t)
        × ((stack_limit d window).get_limit t ≤ℤ b.max_concurrency)
  unfolding Defs.get_limit
  limit-range t p =
      capped-to_int d laws t.delegate.0 _ _ _ sound.range p.kept_min p.kept_max p.capped p.published

  -- A simple limiter over a windowed limit over a gradient limit, made with a sound configuration whose
  -- largest limit is `top`, and any windows: after any history of calls, completions and destructions
  -- `GetLimit` lies in the configured range, at most `top` slots are out, bypassed calls aside, and
  -- `InflightCount` is their number. It is assumed that ints are doubles in their order and that a cast
  -- to int truncates.
  pub run_stack-bounded :
      (bypass : Option (String → Bool)) (windows : Config.Builder V) (world : W) (top : ℕ)
      (history : List Op)
      → b.max_concurrency ≡ pos top
      → let w = run_stack d window bypass b windows world history in
        let n = (stack_limit d window).get_limit w.state.limit in
        (b.min_limit ≤ℤ n)
        × (n ≤ℤ b.max_concurrency)
        × (in_flight w.guards ≤ top)
        × (w.state.inflight ≡ pos (in_flight w.guards))
  unfolding run_stack
  run_stack-bounded bypass windows world top history e =
      let start = fresh_stack d window b windows world in
      let p =
        after-keeps (stack_limit d window) (simple_gate (stack_limit d window)) bypass Published
          (simple_gate-Keeps (stack_limit d window) Published sample-Published) start history
          (fresh-Published windows world) in
      let r = limit-range _ p in
      let c =
        after-in_flight (stack_limit d window) bypass top Published sample-Published
          (λ t q. at_top _ b.max_concurrency top e (limit-range t q).1)
          (int_top b.max_concurrency top e sound.range.hi_int) start history
          (fresh-Published windows world) in
      (r.0, r.1, c.0, c.1)
    where
      int_top : (z : ℤ) (top : ℕ) → z ≡ pos top → IsInt32 z → top < 2 ^ 31
      int_top z top e i = ground arith

      at_top : (n z : ℤ) (top : ℕ) → z ≡ pos top → n ≤ℤ z → n ≤ℤ pos top
      at_top n z top e l = ground arith
