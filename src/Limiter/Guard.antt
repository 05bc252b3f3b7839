-- ===== src/Limiter/Guard.antt =====
-- `Limiter` as an interface and its move-only `SlotGuard`.
use limen.Base.{Bool, true, false, not, ◌&&◌, ◌||◌, if◌then◌else◌, ℤ, Option, String}

pub data CompletionStatus : Type 0 where
  success ignored dropped : CompletionStatus

-- `attached` says that `limiter_` is not null.
pub record SlotGuard : Type 0 where
  pub attached : Bool
  pub start_time_ns : ℤ
  pub inflight_at_acquire : ℤ
  pub partition_index : ℤ
  pub bypassed : Bool
  pub completed : Bool

-- `MakeSlot` and the private constructor.
unfoldable pub make_slot : ℤ → ℤ → Bool → ℤ → SlotGuard
make_slot start_time_ns inflight_at_acquire bypassed partition_index = record {
  attached = true;
  start_time_ns = start_time_ns;
  inflight_at_acquire = inflight_at_acquire;
  partition_index = partition_index;
  bypassed = bypassed;
  completed = false;
}

-- What a limiter with state `S` implements. `OnSlotComplete` gets the fields of the guard.
pub record LimiterOps (S : Type 0) : Type 0 where
  pub do_try_acquire : S → String → S × Option SlotGuard
  pub on_slot_complete : S → CompletionStatus → SlotGuard → S

module _ {S : Type 0} (limiter : LimiterOps S) where
  -- `TryAcquire`, with a context and without.
  unfoldable pub try_acquire : S → String → S × Option SlotGuard
  try_acquire s context = limiter.do_try_acquire s context

  unfoldable pub try_acquire_plain : S → S × Option SlotGuard
  try_acquire_plain s = limiter.do_try_acquire s ""

  -- `Complete`, behind `OnSuccess`, `OnIgnore` and `OnDropped`.
  unfoldable pub complete : S → SlotGuard → CompletionStatus → S × SlotGuard
  complete s g status =
      if not g.attached || g.completed
      then (s, g)
      else (limiter.on_slot_complete s status g, record g { completed = true })

  -- The destructor.
  unfoldable pub destroy : S → SlotGuard → S
  destroy s g = if g.attached && not g.completed then limiter.on_slot_complete s ignored g else s

  -- The move constructor: the new guard, and what is left of the old one.
  unfoldable pub move_from : SlotGuard → SlotGuard × SlotGuard
  move_from other = (other, record other { attached = false })

  -- The move assignment; `same` says that `other` is the guard itself.
  unfoldable pub move_assign : S → Bool → SlotGuard → SlotGuard → S × SlotGuard × SlotGuard
  move_assign s same this other =
      if same then (s, this, other) else (destroy s this, other, record other { attached = false })
