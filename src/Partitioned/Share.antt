-- ===== src/Partitioned/Share.antt =====
-- Admission under a partition's share: who is let in, and what a release gives back.
use limen.Base.{
  ℕ, ◌≡◌, true, false, pos, add32, Option, none, some, set, arith, Bool, ltb_ℤ, ◌||◌, not,
  if◌then◌else◌, eqb_ℤ, ◌∷◌, ◌&&◌,
}
use limen.Limit.Defs.{get_limit}
use limen.Limiter.Defs.{LimiterState, AcquireResult}
use limen.Partitioned.Defs.{Partition, Pools, Routing, Wrapped, maybe_backoff_delay}

pub maybe_backoff_delay-partitions :
    {D : Type 0} (r : Routing) (part : Partition D) (p : Pools D)
    → (maybe_backoff_delay r part p).partitions ≡ p.partitions
unfolding maybe_backoff_delay
maybe_backoff_delay-partitions r part p = ground arith

-- A thread that is rejected sleeps: the partition has a delay, and there is a thread to spare.
abbrev pub is_delayed : {D : Type 0} → Routing → Pools D → Partition D → Bool
is_delayed r p part =
    not (eqb_ℤ part.reject_delay (pos 0)) && ltb_ℤ p.delayed_threads r.max_delayed_threads

module _ {S D : Type 0} where
  -- Capacity is idle, or the partition has not used up its share.
  abbrev pub has_room : LimiterState (Wrapped S D) → Partition D → Bool
  has_room s part = ltb_ℤ s.inflight (get_limit s.limit.1) || ltb_ℤ part.busy part.limit

  abbrev pub with_world : LimiterState (Wrapped S D) → Pools D → LimiterState (Wrapped S D)
  with_world s p = record s { limit = (s.limit.0, record s.limit.1 { world = p }) }

  -- What a call for partition `i` leads to, by whether there is room.
  abbrev pub Verdict :
      Routing
      → LimiterState (Wrapped S D)
      → ℕ
      → Partition D
      → Bool
      → LimiterState (Wrapped S D) × Option AcquireResult
      → Type 0
  Verdict r s i part true (s', answer) =
      (s'
        ≡ record (with_world s (record s.limit.1.world {
          partitions =
              set s.limit.1.world.partitions i (record part { busy = add32 part.busy (pos 1) });
        })) { inflight = add32 s.inflight (pos 1) })
      × (answer
          ≡ some (record { inflight_post = add32 s.inflight (pos 1); partition_index = pos i }))
  Verdict r s i part false (s', answer) =
      (s'
        ≡ with_world s (record s.limit.1.world {
          slept =
              if is_delayed r s.limit.1.world part
              then part.reject_delay ∷ s.limit.1.world.slept
              else s.limit.1.world.slept;
        }))
      × (answer ≡ none)
