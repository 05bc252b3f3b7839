-- ===== src/Stack/Defs.antt =====
-- `Gradient2Limit` as a limit, and the stack of the three components.
use limen.Base.{Bool, Option, String, List}
use limen.Double.{DoubleOps}
use limen.Limit.Defs.{LimitOps, AbstractLimit, get_limit, starting_at}
use limen.Gradient.Defs.{Gradient2, Builder}
use limen.Gradient.Defs
use limen.Gradient.Published.{gradient2_on_sample}
use limen.Window.Defs.{WindowOps}
use limen.Windowed.Defs.{Windowed, windowed_limit}
use limen.Windowed.Config
use limen.Limiter.Account.{Op, World, after}
use limen.Simple.Defs.{simple_gate}

module _ (d : DoubleOps) {W : Type 0} where
  -- `Update` under `AbstractLimit`, behind the interface.
  abbrev pub gradient2_limit : LimitOps (Gradient2 d.Double × AbstractLimit W)
  gradient2_limit = record {
    get_limit = λ g. get_limit g.1;
    on_sample = λ g start rtt inflight did_drop.
        gradient2_on_sample d g (record {
          start_time_ns = start;
          rtt_ns = rtt;
          inflight = inflight;
          did_drop = did_drop;
        });
  }

-- A simple limiter whose limit sees the samples window by window.
module _ (d : DoubleOps) {W V : Type 0} (window : WindowOps V) where
  abbrev pub stack_limit : LimitOps (Windowed V (Gradient2 d.Double × AbstractLimit W))
  stack_limit = windowed_limit window (gradient2_limit d)

  -- As the Builders make it, with nothing told yet.
  unfoldable pub fresh_stack :
      Builder d.Double → Config.Builder V → W → Windowed V (Gradient2 d.Double × AbstractLimit W)
  fresh_stack b windows world =
      Config.init windows (Defs.build d b, starting_at b.initial_limit world)

  unfoldable pub run_stack :
      Option (String → Bool)
      → Builder d.Double
      → Config.Builder V
      → W
      → List Op
      → World (Windowed V (Gradient2 d.Double × AbstractLimit W))
  run_stack bypass b windows world history =
      after stack_limit (simple_gate stack_limit) bypass (fresh_stack b windows world) history
