-- ===== src/Blocking/Setup.antt =====
-- The Builders' other setters, the accessors, and how long a caller waits. Times are milliseconds.
use limen.Base.{
  ℤ, pos, leb_ℤ, if◌then◌else◌, ◌+ℤ◌, int32, Option, String, length, Bool, ℕ, ◌≡◌, ◌≤◌, ◌<ℤ◌,
  pos_part, ◌^◌, ◌≤ℤ◌, List, arith,
}
use limen.Limiter.Guard.{LimiterOps}
use limen.Blocking.Config.{Fifo, Lifo, build_lifo, built, build_lifo-built}
use limen.Blocking.Frames.{Event, after}
use limen.Blocking.Backlog.{after-Bounded}
use limen.Blocking.Defs.{Blocking, lifo}

module _ {L : Type 0} where
  unfoldable pub with_delegate_fifo : Option L → Fifo L → Fifo L
  with_delegate_fifo delegate b = record b { delegate = delegate }

  unfoldable pub with_timeout_fifo : ℤ → Fifo L → Fifo L
  with_timeout_fifo timeout b = record b { timeout = timeout }

  unfoldable pub with_delegate_lifo : Option L → Lifo L → Lifo L
  with_delegate_lifo delegate b = record b { delegate = delegate }

  unfoldable pub with_backlog_size : ℤ → Lifo L → Lifo L
  with_backlog_size size b = record b { backlog_size = size }

-- `QueueSize` and `BacklogSize`, with the cast of the size.
unfoldable pub queue_size : {S : Type 0} → Blocking S → ℤ
queue_size b = int32 (pos (length b.queue))

-- The condition that `AwaitQueueSize` and `AwaitBacklogSize` wait for.
unfoldable pub has_parked : {S : Type 0} → ℤ → Blocking S → Bool
has_parked n b = leb_ℤ n (pos (length b.queue))

-- When the wait in `LifoBlockingLimiter` ends at the latest: at once, for a timeout that is not positive.
unfoldable pub deadline : (String → ℤ) → ℤ → String → ℤ
deadline timeout_fn now context =
    let timeout = timeout_fn context in if leb_ℤ timeout (pos 0) then now else now +ℤ timeout

within_int :
    (k : ℕ) (size : ℤ)
    → k ≤ pos_part size
    → pos 1 ≤ℤ size
    → size <ℤ pos (2 ^ 31)
    → (pos 0 ≤ℤ int32 (pos k)) × (int32 (pos k) ≤ℤ size)
unfolding int32
within_int k size h p b = (ground arith, ground arith)

-- A LIFO limiter that the Builder returns, over any delegate and whatever order the pieces of its calls
-- run in: `BacklogSize` is never negative and never more than the size that was set, an int.
pub build_lifo-queue_size :
    {S : Type 0} (limiter : LimiterOps S) (b : Lifo S) (delegate : S) (size : ℤ)
    (timeout_fn : String → ℤ)
    → build_lifo b ≡ built (delegate, size, timeout_fn)
    → size <ℤ pos (2 ^ 31)
    → (history : List Event)
    → let n = queue_size (after limiter (lifo (pos_part size)) delegate history).state in
      (pos 0 ≤ℤ n) × (n ≤ℤ size)
unfolding queue_size
build_lifo-queue_size limiter b delegate size timeout_fn e h history =
    let made = build_lifo-built b delegate size timeout_fn e in
    within_int _ size (after-Bounded limiter (pos_part size) delegate history)
      (at_least made.1 made.2) h
  where
    at_least : {x : ℤ} → x ≡ size → pos 1 ≤ℤ x → pos 1 ≤ℤ size
    at_least same p = rw (← same) p
