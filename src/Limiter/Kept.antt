-- ===== src/Limiter/Kept.antt =====
-- What the gate and the samples keep of the wrapped limit holds after any history of calls.
use limen.Base.{
  Bool, not, ◌&&◌, ◌||◌, List, [], ◌∷◌, ℤ, pos, sub32, Option, none, some, String, if_elim, ℕ,
}
use limen.Limit.Defs.{LimitOps}
use limen.Limiter.Guard.{CompletionStatus, SlotGuard, complete, destroy}
use limen.Limiter.Defs.{
  Status, LimiterState, AcquireResult, Gate, init, count_outcome, is_bypassed, admit,
  do_try_acquire, feed_sample, on_slot_complete, limiter_at, to_outcome_status,
}
use limen.Limiter.Account.{
  Op, acquires, completes, destroys, World, step, after, hand_out, on_guard,
}

-- A predicate on the wrapped limit that each call of the subclass and of the algorithm keeps.
pub record Keeps {L : Type 0} (limit : LimitOps L) (gate : Gate L) (P : L → Type 0) : Type 0 where
  pub acquire :
      (s : LimiterState L) (context : String) → P s.limit → P (gate.do_acquire s context).0.limit
  pub release :
      (s : LimiterState L) (index : ℤ) → P s.limit → P (gate.on_release_partition s index).limit
  pub sample :
      (l : L) (start rtt inflight : ℤ) (did_drop : Bool)
      → P l
      → P (limit.on_sample l start rtt inflight did_drop)

module _ {L : Type 0} (limit : LimitOps L) (gate : Gate L) (bypass : Option (String → Bool))
    (P : L → Type 0) (laws : Keeps limit gate P) where
  admit-keeps :
      (now : ℤ) (r : LimiterState L × Option AcquireResult)
      → P r.0.limit
      → P (admit limit gate bypass now r).0.limit
  unfolding admit count_outcome
  admit-keeps now (s, none) h = h
  admit-keeps now (s, some result) h = h

  do_try_acquire-keeps :
      (now : ℤ) (s : LimiterState L) (context : String)
      → P s.limit
      → P (do_try_acquire limit gate bypass now s context).0.limit
  unfolding do_try_acquire count_outcome
  do_try_acquire-keeps now s context h =
      if_elim {A = LimiterState L × Option SlotGuard} (λ r. P r.0.limit)
        (is_bypassed limit gate bypass context) (λ t. h)
        (λ f. admit-keeps now (gate.do_acquire s context) (laws.acquire s context h))

  feed_sample-keeps :
      (now : ℤ) (s : LimiterState L) (status : CompletionStatus) (g : SlotGuard)
      → P s.limit
      → P (feed_sample limit gate bypass now s status g).limit
  unfolding feed_sample
  feed_sample-keeps now s CompletionStatus.ignored g h = h
  feed_sample-keeps now s CompletionStatus.success g h = laws.sample s.limit _ _ _ _ h
  feed_sample-keeps now s CompletionStatus.dropped g h = laws.sample s.limit _ _ _ _ h

  count_outcome-keeps :
      (s : LimiterState L) (status : Status) → P s.limit → P (count_outcome s status).limit
  unfolding count_outcome
  count_outcome-keeps s status h = h

  on_slot_complete-keeps :
      (now : ℤ) (s : LimiterState L) (status : CompletionStatus) (g : SlotGuard)
      → P s.limit
      → P (on_slot_complete limit gate bypass now s status g).limit
  unfolding on_slot_complete
  on_slot_complete-keeps now s status g h =
      if_elim {A = LimiterState L} (λ r. P r.limit) g.bypassed (λ t. h)
        (λ f. feed_sample-keeps now _ status g (
          count_outcome-keeps _ (to_outcome_status status)
            (laws.release (record s { inflight = sub32 s.inflight (pos 1) }) g.partition_index h)))

  complete-keeps :
      (now : ℤ) (s : LimiterState L) (g : SlotGuard) (status : CompletionStatus)
      → P s.limit
      → P (complete (limiter_at limit gate bypass now) s g status).0.limit
  unfolding complete
  complete-keeps now s g status h =
      if_elim {A = LimiterState L × SlotGuard} (λ r. P r.0.limit) (not g.attached || g.completed)
        (λ t. h) (λ f. on_slot_complete-keeps now s status g h)

  destroy-keeps :
      (now : ℤ) (s : LimiterState L) (g : SlotGuard)
      → P s.limit
      → P (destroy (limiter_at limit gate bypass now) s g).limit
  unfolding destroy
  destroy-keeps now s g h =
      if_elim {A = LimiterState L} (λ r. P r.limit) (g.attached && not g.completed)
        (λ t. on_slot_complete-keeps now s CompletionStatus.ignored g h) (λ f. h)

  hand_out-keeps :
      (guards : List SlotGuard) (r : LimiterState L × Option SlotGuard)
      → P r.0.limit
      → P (hand_out guards r).state.limit
  unfolding hand_out
  hand_out-keeps guards (s, none) h = h
  hand_out-keeps guards (s, some g) h = h

  on_guard-keeps :
      (w : World L) (i : ℕ) (o : Option SlotGuard) (f : SlotGuard → LimiterState L × SlotGuard)
      → P w.state.limit
      → ((g : SlotGuard) → P (f g).0.limit)
      → P (on_guard w i o f).state.limit
  unfolding on_guard
  on_guard-keeps w i none f h k = h
  on_guard-keeps w i (some g) f h k = k g

  step-keeps :
      (w : World L) (op : Op) → P w.state.limit → P (step limit gate bypass w op).state.limit
  unfolding step
  step-keeps w (acquires now context) h =
      hand_out-keeps w.guards _ (do_try_acquire-keeps now w.state context h)
  step-keeps w (completes now i status) h =
      on_guard-keeps w i _ _ h (λ g. complete-keeps now w.state g status h)
  step-keeps w (destroys now i) h = on_guard-keeps w i _ _ h (λ g. destroy-keeps now w.state g h)

  pub after-keeps :
      (l : L) (history : List Op) → P l → P (after limit gate bypass l history).state.limit
  unfolding after init
  after-keeps l [] h = h
  after-keeps l (op ∷ past) h =
      step-keeps (after limit gate bypass l past) op (after-keeps l past h)
