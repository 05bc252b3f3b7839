-- ===== src/Limiter/Account.antt =====
-- The counters of a limiter over any history of calls: no slot and no outcome is lost.
use limen.Base.{
  ℕ, ◌≡◌, refl, Bool, false, not, ◌&&◌, if◌then◌else◌, List, [], ◌∷◌, ◌++◌, ℤ, pos, ◌+ℤ◌, add32,
  Option, none, some, String, get_elem?, set, sum_of,
}
use limen.Limit.Defs.{LimitOps}
use limen.Limiter.Guard.{CompletionStatus, SlotGuard, complete, destroy}
use limen.Limiter.Defs.{
  Status, LimiterState, AcquireResult, Gate, init, base_acquire, base_gate, do_try_acquire,
  limiter_at,
}

-- What `DoAcquire` promises: one more in flight on admission, none on rejection, and the outcome
-- counters are left alone; so does the release of a partition.
pub record IsGate {L : Type 0} (gate : Gate L) : Type 0 where
  pub admitted :
      (s : LimiterState L) (context : String) (r : AcquireResult)
      → (gate.do_acquire s context).1 ≡ some r
      → (gate.do_acquire s context).0.inflight ≡ add32 s.inflight (pos 1)
  pub refused :
      (s : LimiterState L) (context : String)
      → (gate.do_acquire s context).1 ≡ none
      → (gate.do_acquire s context).0.inflight ≡ s.inflight
  pub acquire_counts :
      (s : LimiterState L) (context : String)
      → (gate.do_acquire s context).0.outcome_counts ≡ s.outcome_counts
  pub release_inflight :
      (s : LimiterState L) (index : ℤ) → (gate.on_release_partition s index).inflight ≡ s.inflight
  pub release_counts :
      (s : LimiterState L) (index : ℤ)
      → (gate.on_release_partition s index).outcome_counts ≡ s.outcome_counts

pub base_gate-IsGate : {L : Type 0} → IsGate (base_gate {L = L})
unfolding base_acquire
base_gate-IsGate = record {
  admitted = λ s context r e. refl;
  refused = λ s context e. cc;
  acquire_counts = λ s context. refl;
  release_inflight = λ s index. refl;
  release_counts = λ s index. refl;
}

-- What callers do, with the clock's reading: ask for a slot, complete one that they hold, or drop the
-- guard of one. A guard is named by its place in the order of admission.
pub data Op : Type 0 where
  acquires : ℤ → String → Op
  completes : ℤ → ℕ → CompletionStatus → Op
  destroys : ℤ → ℕ → Op

pub record World (L : Type 0) : Type 0 where
  pub state : LimiterState L
  pub guards : List SlotGuard

-- A slot in flight: the guard will release it.
abbrev pub live : SlotGuard → ℕ
live g = if g.attached && not g.completed && not g.bypassed then 1 else 0

abbrev pub in_flight : List SlotGuard → ℕ
in_flight = sum_of live

-- The calls of `TryAcquire` in a history.
abbrev pub attempt : Op → ℕ
attempt (acquires now context) = 1
attempt (completes now i status) = 0
attempt (destroys now i) = 0

abbrev pub attempts : List Op → ℕ
attempts = sum_of attempt

-- All outcomes, added up.
abbrev pub all_outcomes : (Status → ℤ) → ℤ
all_outcomes c =
    c Status.success
    +ℤ c Status.rejected
    +ℤ c Status.dropped
    +ℤ c Status.ignored
    +ℤ c Status.bypassed

module _ {L : Type 0} where
  -- A slot that is handed out joins the guards.
  unfoldable pub hand_out : List SlotGuard → LimiterState L × Option SlotGuard → World L
  hand_out guards (s, none) = record { state = s; guards = guards }
  hand_out guards (s, some g) = record { state = s; guards = guards ++ g ∷ [] }

  -- An action on one guard, if it is there.
  unfoldable pub on_guard :
      World L → ℕ → Option SlotGuard → (SlotGuard → LimiterState L × SlotGuard) → World L
  on_guard w i none f = w
  on_guard w i (some g) f = record { state = (f g).0; guards = set w.guards i (f g).1 }

module _ {L : Type 0} (limit : LimitOps L) (gate : Gate L) (bypass : Option (String → Bool)) where
  unfoldable pub step : World L → Op → World L
  step w (acquires now context) =
      hand_out w.guards (do_try_acquire limit gate bypass now w.state context)
  step w (completes now i status) =
      on_guard w i (get_elem? w.guards i)
        λ g. complete (limiter_at limit gate bypass now) w.state g status
  step w (destroys now i) =
      on_guard w i (get_elem? w.guards i)
        λ g. (destroy (limiter_at limit gate bypass now) w.state g, record g { attached = false })

  -- The limiter and the guards handed out after a history, newest call first.
  unfoldable pub after : L → List Op → World L
  after l [] = record { state = init l; guards = [] }
  after l (op ∷ past) = step (after l past) op
