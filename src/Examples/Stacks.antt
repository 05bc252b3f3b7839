-- ===== src/Examples/Stacks.antt =====
-- The stack of the three components, and the blocking limiter around an `AbstractLimiter`.
use limen.Base.{
  ◌≡◌, ◌≤◌, ◌+◌, ◌-◌, refl, sum_of, int32, List, [], ◌∷◌, length, none, pos, ◌≤ℤ◌, arith,
}
use limen.Double.{thousandths, thousandths-IsCast}
use limen.Limit.Defs.{AbstractLimit, LimitOps, settable_limit, get_limit}
use limen.Limiter.Guard.{CompletionStatus}
use limen.Limiter.Defs.{Gate, init, base_gate}
use limen.Limiter.Account.{Op, acquires, completes, destroys, in_flight, base_gate-IsGate}
use limen.Window.Average.{AverageWindow, average_window}
use limen.Window.Average
use limen.Windowed.Config.{default_builder}
use limen.Windowed.Config
use limen.Simple.Defs.{simple_gate}
use limen.Stack.Defs.{stack_limit, run_stack}
use limen.Stack.Range.{run_stack-bounded}
use limen.Blocking.Defs.{Blocking, fifo, unblock}
use limen.Blocking.Orders.{fifo-IsDiscipline}
use limen.Blocking.Frames.{Event, asks, parks, wakes, releases, after}
use limen.Blocking.Slots.{delivered, held_in}
use limen.Blocking.Composed.{Ticking, ticking_limiter, after-InflightCount}
use limen.Blocking.Room.{Room, length-unblock_simple}
use limen.Examples.Limits.{config, config-IsSound}

abbrev history : List Op
history =
    destroys (pos 70) 1
    ∷ completes (pos 60) 0 CompletionStatus.success
    ∷ acquires (pos 20) "b"
    ∷ acquires (pos 10) "a"
    ∷ []

abbrev windows : Config.Builder AverageWindow
windows = default_builder Average.init

run_stack-bounded_example :
    let w = run_stack thousandths average_window none config windows (pos 0) history in
    let n = (stack_limit thousandths average_window).get_limit w.state.limit in
    (pos 20 ≤ℤ n)
    × (n ≤ℤ pos 200)
    × (in_flight w.guards ≤ 200)
    × (w.state.inflight ≡ pos (in_flight w.guards))
run_stack-bounded_example =
    run_stack-bounded thousandths average_window thousandths-IsCast config config-IsSound none
      windows (pos 0) 200 history refl

abbrev two : AbstractLimit (Unit {0})
two = record { limit = pos 2; listeners = []; world = tt }

abbrev bare : LimitOps (AbstractLimit (Unit {0}))
bare = settable_limit

abbrev gate : Gate (AbstractLimit (Unit {0}))
gate = base_gate

abbrev events : List Event
events = wakes 0 ∷ releases CompletionStatus.success (pos 0) ∷ parks "c" ∷ parks "b" ∷ asks "a" ∷ []

after-InflightCount_example :
    let b =
      (after
        (ticking_limiter bare gate none)
        fifo
        (record { state = init two; readings = λ k. pos k; calls = 0 })
        events).state in
    b.delegate.state.inflight
    ≡ int32 (pos (sum_of held_in b.active_slots + delivered b.next_frame b.slot_of))
after-InflightCount_example =
    after-InflightCount bare gate none base_gate-IsGate fifo fifo-IsDiscipline two (λ k. pos k)
      events

-- One of two slots is out, and three callers wait.
abbrev waiting : Blocking (Ticking (AbstractLimit (Unit {0})))
waiting = record {
  delegate = record {
    state = record { inflight = pos 1; outcome_counts = λ status. pos 0; limit = two };
    readings = λ k. pos k;
    calls = 4;
  };
  queue =
      record { frame = 0; context = "a" }
      ∷ record { frame = 1; context = "b" }
      ∷ record { frame = 2; context = "c" }
      ∷ [];
  active_slots = [];
  next_slot_id = pos 0;
  slot_of = λ i. none;
  next_frame = 3;
}

two_allowed : bare.get_limit waiting.delegate.state.limit ≡ pos 2
unfolding get_limit
two_allowed = refl

length-unblock_simple_example :
    let b = unblock (ticking_limiter bare (simple_gate bare) none) waiting in
    (length b.queue ≡ 3 - (2 - 1)) × Room bare ((2 - 1) - 3) b.delegate
length-unblock_simple_example =
    length-unblock_simple bare waiting 2 1 two_allowed refl (omega arith) (omega arith)
