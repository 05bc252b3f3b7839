-- ===== src/Examples/Waiting.antt =====
-- The blocking limiters over a delegate that counts its free slots.
use limen.Base.{
  arith, ℕ, zero, suc, ◌≡◌, refl, true, false, List, [], ◌∷◌, pos, negsuc, Option, none, some,
  String, ◌≤ℤ◌,
}
use limen.Limiter.Guard.{CompletionStatus, SlotGuard, LimiterOps, try_acquire, complete}
use limen.Blocking.Config.{Lifo, build_lifo, check_fixed, built, IsFixed, build_lifo-built}
use limen.Blocking.Defs.{Blocking, fifo, lifo, unblock, find_slot}
use limen.Blocking.Serve.{Handoff, unblock-Handoff}
use limen.Blocking.Frames.{Event, asks, parks, wakes, releases, after}
use limen.Blocking.Progress.{IsCounted}
use limen.Blocking.Lost.{race, IsLost, race-IsLost}
use limen.Blocking.Setup.{queue_size, build_lifo-queue_size}

abbrev slot : SlotGuard
slot = record {
  attached = true;
  start_time_ns = pos 0;
  inflight_at_acquire = pos 1;
  partition_index = negsuc 0;
  bypassed = false;
  completed = false;
}

abbrev take_free : ℕ → String → ℕ × Option SlotGuard
take_free zero context = (zero, none)
take_free (suc n) context = (n, some slot)

abbrev pool : LimiterOps ℕ
pool = record { do_try_acquire = take_free; on_slot_complete = λ n status g. suc n }

-- One slot is free and two callers wait.
abbrev two_waiters : Blocking ℕ
two_waiters = record {
  delegate = 1;
  queue = record { frame = 0; context = "a" } ∷ record { frame = 1; context = "b" } ∷ [];
  active_slots = [];
  next_slot_id = pos 0;
  slot_of = λ i. none;
  next_frame = 2;
}

unblock-Handoff_example :
    let b = unblock pool two_waiters in
    Handoff pool two_waiters.slot_of two_waiters.queue
      (record { delegate = b.delegate; slot_of = b.slot_of; queue = b.queue })
unblock-Handoff_example = unblock-Handoff pool two_waiters

abbrev history : List Event
history =
    wakes 0 ∷ releases CompletionStatus.success (pos 0) ∷ parks "c" ∷ parks "b" ∷ asks "a" ∷ []

abbrev lifo_config : Lifo ℕ
lifo_config = record {
  delegate = some 1;
  backlog_size = pos 3;
  timeout_fn = some (λ context. pos 50);
  fixed_timeout = some (pos 50);
}

lifo_builds : build_lifo lifo_config ≡ built (1, pos 3, λ context. pos 50)
unfolding build_lifo check_fixed
lifo_builds = refl

build_lifo-built_example :
    (lifo_config.delegate ≡ some 1)
    × (lifo_config.backlog_size ≡ pos 3)
    × (pos 1 ≤ℤ lifo_config.backlog_size)
    × (lifo_config.timeout_fn ≡ some (λ context. pos 50))
    × IsFixed lifo_config.fixed_timeout
build_lifo-built_example = build_lifo-built lifo_config 1 (pos 3) (λ context. pos 50) lifo_builds

build_lifo-queue_size_example :
    let n = queue_size (after pool (lifo 3) 1 history).state in (pos 0 ≤ℤ n) × (n ≤ℤ pos 3)
build_lifo-queue_size_example =
    build_lifo-queue_size pool lifo_config 1 (pos 3) (λ context. pos 50) lifo_builds (omega arith)
      history

-- The pool has as many free slots as it counts.
abbrev Free : ℕ → ℕ → Type 0
Free k n = n ≡ k

pool-IsCounted : IsCounted pool Free
unfolding try_acquire
pool-IsCounted = record {
  admits = λ k s context h. rw h (refl, refl);
  rejects = λ s context h. rw h (refl, refl);
}

-- Its one slot is out.
abbrev taken : Blocking ℕ
taken = record {
  delegate = 0;
  queue = [];
  active_slots = (pos 0, slot) ∷ [];
  next_slot_id = pos 1;
  slot_of = λ i. none;
  next_frame = 0;
}

gives_one : (n : ℕ) → Free 0 n → Free 1 (complete pool n slot CompletionStatus.success).0
unfolding complete
gives_one n h = rw h refl

found : find_slot (pos 0) taken.active_slots ≡ some slot
unfolding find_slot
found = refl

race-IsLost_example :
    IsLost pool fifo Free taken "b" (race pool fifo taken "b" CompletionStatus.success (pos 0))
race-IsLost_example =
    race-IsLost pool fifo Free pool-IsCounted taken slot "b" CompletionStatus.success (pos 0) refl
      refl found gives_one (λ w. refl)
