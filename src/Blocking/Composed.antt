-- ===== src/Blocking/Composed.antt =====
-- A blocking limiter around an `AbstractLimiter`, the usual delegate.
use limen.Base.{
  ℕ, suc, ◌+◌, ◌≡◌, refl, Bool, Option, none, some, String, ℤ, pos, List, sum_of, int32, int64,
  ◌+ℤ◌, if_elim,
}
use limen.Limit.Defs.{LimitOps}
use limen.Limiter.Guard.{SlotGuard, make_slot, LimiterOps, try_acquire}
use limen.Limiter.Defs.{
  LimiterState, AcquireResult, Gate, init, is_bypassed, admit, do_try_acquire, on_slot_complete,
}
use limen.Limiter.Account.{IsGate}
use limen.Limiter.Balance.{Accounts, do_try_acquire-Accounts}
use limen.Limiter.Ledger.{release-Accounts}
use limen.Blocking.Defs.{Discipline}
use limen.Blocking.Orders.{IsDiscipline}
use limen.Blocking.Frames.{Event, after}
use limen.Blocking.Slots.{AnyFresh, IsLedger, delivered, held_in}
use limen.Blocking.Ledger.{after-outstanding}

-- The limiter with what its clock will read, a reading for each call.
pub record Ticking (L : Type 0) : Type 0 where
  pub state : LimiterState L
  pub readings : ℕ → ℤ
  pub calls : ℕ

module _ {L : Type 0} (limit : LimitOps L) (gate : Gate L) (bypass : Option (String → Bool)) where
  abbrev pub ticks : Ticking L → LimiterState L → Ticking L
  ticks t s = record t { state = s; calls = suc t.calls }

  -- `AbstractLimiter` as a delegate whose clock moves.
  abbrev pub ticking_limiter : LimiterOps (Ticking L)
  ticking_limiter = record {
    do_try_acquire = λ t context.
        let r = do_try_acquire limit gate bypass (t.readings t.calls) t.state context in
        (ticks t r.0, r.1);
    on_slot_complete = λ t status g.
        ticks t (on_slot_complete limit gate bypass (t.readings t.calls) t.state status g);
  }

  admit-AnyFresh :
      (now : ℤ) (r : LimiterState L × Option AcquireResult)
      → AnyFresh (admit limit gate bypass now r).1
  unfolding admit make_slot
  admit-AnyFresh now (s, none) = tt
  admit-AnyFresh now (s, some a) = record { attached = refl; pending = refl }

  do_try_acquire-AnyFresh :
      (now : ℤ) (s : LimiterState L) (context : String)
      → AnyFresh (do_try_acquire limit gate bypass now s context).1
  unfolding do_try_acquire make_slot
  do_try_acquire-AnyFresh now s context =
      if_elim {A = LimiterState L × Option SlotGuard} (λ r. AnyFresh r.1)
        (is_bypassed limit gate bypass context) (λ t. record { attached = refl; pending = refl })
        (λ f. admit-AnyFresh now (gate.do_acquire s context))

  -- The counters agree with `k` slots out, after some number of attempts.
  abbrev Holds : ℕ → Ticking L → Type 0
  Holds k t = (n : ℕ) × Accounts n k t.state

  module _ (laws : IsGate gate) where
    ticking-IsLedger : IsLedger ticking_limiter Holds
    unfolding try_acquire
    ticking-IsLedger = record {
      acquires = λ k t context h. (
        suc h.0,
        do_try_acquire-Accounts limit gate bypass laws (t.readings t.calls) h.0 k t.state context
            h.1,
      );
      issues = λ t context. do_try_acquire-AnyFresh (t.readings t.calls) t.state context;
      releases = λ k t status g f h. (
        h.0,
        release-Accounts limit gate bypass laws (t.readings t.calls) h.0 k t.state g status
            f.attached f.pending h.1,
      );
    }

    start-Holds :
        (l : L) (readings : ℕ → ℤ)
        → Holds 0 (record { state = init l; readings = readings; calls = 0 })
    unfolding init int32 int64 ◌+ℤ◌
    start-Holds l readings = (0, record { held = refl; outcomes = refl })

    -- A blocking limiter around a limiter whose gate keeps its contract, whatever the order in which
    -- the pieces of its calls run and whatever the clock reads: the delegate's `InflightCount` is the
    -- number of slots in `active_slots_` and in frames not collected yet, bypassed ones aside, as an
    -- int. It is assumed of the discipline that joining adds a waiter once and leaving takes one
    -- occurrence of it away.
    pub after-InflightCount :
        (order : Discipline)
        → IsDiscipline order
        → (l : L) (readings : ℕ → ℤ) (history : List Event)
        → let b =
            (after ticking_limiter order
              (record { state = init l; readings = readings; calls = 0 })
              history).state in
          b.delegate.state.inflight
          ≡ int32 (pos (sum_of held_in b.active_slots + delivered b.next_frame b.slot_of))
    after-InflightCount order rules l readings history =
        (after-outstanding ticking_limiter Holds ticking-IsLedger order rules _ history
          (start-Holds l readings)).1.held
