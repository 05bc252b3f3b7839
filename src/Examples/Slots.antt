-- ===== src/Examples/Slots.antt =====
-- Guards and counters of a limiter with the base class's gate, and threads in the simple limiter.
use limen.Base.{
  replicate, sum_of, ◌≤ℤ◌, ◌≡◌, refl, true, false, List, [], ◌∷◌, ℤ, pos, negsuc, ◌+ℤ◌, int32,
  int64, none, arith,
}
use limen.Limit.Defs.{AbstractLimit, LimitOps, settable_limit}
use limen.Limiter.Guard.{CompletionStatus, SlotGuard, LimiterOps, destroy}
use limen.Limiter.Once.{complete_all, outcome, destroy-complete_all}
use limen.Limiter.Defs.{LimiterState, Gate, base_gate, limiter_at}
use limen.Limiter.Account.{
  Op, acquires, completes, destroys, after, in_flight, attempts, all_outcomes, base_gate-IsGate,
}
use limen.Limiter.Ledger.{after-Accounts}
use limen.Simple.Threads.{idle, loaded, System, load, Step, moves, Reach, start, later}
use limen.Simple.Safety.{holds, Reach-bounded}

abbrev ten : AbstractLimit ℤ
ten = record { limit = pos 10; listeners = []; world = pos 0 }

abbrev bare : LimitOps (AbstractLimit ℤ)
bare = settable_limit

abbrev gate : Gate (AbstractLimit ℤ)
gate = base_gate

-- Three in flight.
abbrev busy : LimiterState (AbstractLimit ℤ)
busy = record { inflight = pos 3; outcome_counts = λ status. pos 0; limit = ten }

abbrev limiter : LimiterOps (LimiterState (AbstractLimit ℤ))
limiter = limiter_at bare gate none (pos 50)

abbrev held : SlotGuard
held = record {
  attached = true;
  start_time_ns = pos 10;
  inflight_at_acquire = pos 3;
  partition_index = negsuc 0;
  bypassed = false;
  completed = false;
}

abbrev statuses : List CompletionStatus
statuses = CompletionStatus.success ∷ CompletionStatus.dropped ∷ []

destroy-complete_all_example :
    let (s, g) = complete_all limiter busy held statuses in
    destroy limiter s g ≡ limiter.on_slot_complete busy (outcome limiter statuses) held
destroy-complete_all_example = destroy-complete_all limiter busy held statuses refl refl

abbrev history : List Op
history =
    destroys (pos 70) 1
    ∷ completes (pos 60) 0 CompletionStatus.success
    ∷ acquires (pos 20) "b"
    ∷ acquires (pos 10) "a"
    ∷ []

after-Accounts_example :
    let w = after bare gate none ten history in
    (w.state.inflight ≡ int32 (pos (in_flight w.guards)))
    × (int64 (all_outcomes w.state.outcome_counts +ℤ pos (in_flight w.guards))
        ≡ int64 (pos (attempts history)))
after-Accounts_example = after-Accounts bare gate none base_gate-IsGate ten history

-- Two threads under a limit of 2, of which the first has loaded the counter.
abbrev started : System
started = record { inflight = pos 0; cap_now = pos 2; threads = replicate 2 idle }

abbrev one_loaded : System
one_loaded = record { inflight = pos 0; cap_now = pos 2; threads = loaded (pos 0) ∷ idle ∷ [] }

first_loads : Step (pos 2) started one_loaded
first_loads = moves [] (idle ∷ []) idle refl load

reached : Reach (pos 2) one_loaded
reached = later (start (pos 2) 2 (omega arith)) first_loads

Reach-bounded_example :
    (one_loaded.inflight ≡ pos (sum_of holds one_loaded.threads)) × (one_loaded.inflight ≤ℤ pos 2)
Reach-bounded_example = Reach-bounded (pos 2) one_loaded (omega arith) (omega arith) reached
