-- ===== src/Limiter/Defs.antt =====
-- `AbstractLimiter`: the bypass, the counters and the samples, around a subclass's gate.
use limen.Base.{
  Bool, true, false, if◌then◌else◌, ℤ, pos, negsuc, sub64, add32, sub32, add64, Option, none, some,
  String,
}
use limen.Limit.Defs.{LimitOps}
use limen.Limiter.Guard.{CompletionStatus, SlotGuard, make_slot, LimiterOps}

pub data Status : Type 0 where
  success rejected dropped ignored bypassed : Status

abbrev pub same_status : Status → Status → Bool
same_status success success = true
same_status rejected rejected = true
same_status dropped dropped = true
same_status ignored ignored = true
same_status bypassed bypassed = true
same_status _ _ = false

-- The labels of the five outcomes.
unfoldable pub status_label : Status → String
status_label success = "success"
status_label rejected = "rejected"
status_label dropped = "dropped"
status_label ignored = "ignored"
status_label bypassed = "bypassed"

unfoldable pub to_outcome_status : CompletionStatus → Status
to_outcome_status CompletionStatus.success = success
to_outcome_status CompletionStatus.ignored = ignored
to_outcome_status CompletionStatus.dropped = dropped

-- The atomics, and the wrapped limit with what its callbacks change.
pub record LimiterState (L : Type 0) : Type 0 where
  pub inflight : ℤ
  pub outcome_counts : Status → ℤ
  pub limit : L

pub record AcquireResult : Type 0 where
  pub inflight_post : ℤ
  pub partition_index : ℤ

-- What a subclass overrides.
pub record Gate (L : Type 0) : Type 0 where
  pub do_acquire : LimiterState L → String → LimiterState L × Option AcquireResult
  pub on_release_partition : LimiterState L → ℤ → LimiterState L

module _ {L : Type 0} where
  unfoldable pub init : L → LimiterState L
  init limit = record { inflight = pos 0; outcome_counts = λ status. pos 0; limit = limit }

  -- outcome_counts_[status].fetch_add(1)
  unfoldable pub count_outcome : LimiterState L → Status → LimiterState L
  count_outcome s status = record s {
    outcome_counts = λ other.
        if same_status other status
        then add64 (s.outcome_counts other) (pos 1)
        else s.outcome_counts other;
  }

  -- The base class admits every call.
  unfoldable pub base_acquire : LimiterState L → String → LimiterState L × Option AcquireResult
  base_acquire s context =
      let post = add32 s.inflight (pos 1) in
      (
        record s { inflight = post },
        some (record { inflight_post = post; partition_index = negsuc 0 }),
      )

  abbrev pub base_gate : Gate L
  base_gate = record { do_acquire = base_acquire; on_release_partition = λ s index. s }

module _ {L : Type 0} (limit : LimitOps L) (gate : Gate L) (bypass : Option (String → Bool)) where
  -- A predicate is configured and holds of the context.
  unfoldable pub is_bypassed : String → Bool
  is_bypassed context = elim bypass [ none ↦ false | some predicate ↦ predicate context ]

  -- What `DoTryAcquire` makes of the gate's answer.
  unfoldable pub admit :
      ℤ → LimiterState L × Option AcquireResult → LimiterState L × Option SlotGuard
  admit now_ns (s, none) = (count_outcome s rejected, none)
  admit now_ns (s, some result) =
      (s, some (make_slot now_ns result.inflight_post false result.partition_index))

  -- The clock's reading is an argument.
  unfoldable pub do_try_acquire : ℤ → LimiterState L → String → LimiterState L × Option SlotGuard
  do_try_acquire now_ns s context =
      if is_bypassed context
      then (count_outcome s bypassed, some (make_slot (pos 0) (pos 0) true (negsuc 0)))
      else admit now_ns (gate.do_acquire s context)

  -- The two outcomes with latency information feed a sample to the limit.
  unfoldable pub feed_sample : ℤ → LimiterState L → CompletionStatus → SlotGuard → LimiterState L
  feed_sample now_ns s CompletionStatus.ignored g = s
  feed_sample now_ns s CompletionStatus.success g = record s {
    limit =
        limit.on_sample s.limit g.start_time_ns (sub64 now_ns g.start_time_ns) g.inflight_at_acquire
          false;
  }
  feed_sample now_ns s CompletionStatus.dropped g = record s {
    limit =
        limit.on_sample s.limit g.start_time_ns (sub64 now_ns g.start_time_ns) g.inflight_at_acquire
          true;
  }

  unfoldable pub on_slot_complete :
      ℤ → LimiterState L → CompletionStatus → SlotGuard → LimiterState L
  on_slot_complete now_ns s status g =
      let released =
        gate.on_release_partition (record s { inflight = sub32 s.inflight (pos 1) })
          g.partition_index in
      if g.bypassed
      then s
      else feed_sample now_ns (count_outcome released (to_outcome_status status)) status g

  -- The limiter at one reading of the clock.
  abbrev pub limiter_at : ℤ → LimiterOps (LimiterState L)
  limiter_at now_ns = record {
    do_try_acquire = do_try_acquire now_ns;
    on_slot_complete = on_slot_complete now_ns;
  }
