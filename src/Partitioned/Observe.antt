-- ===== src/Partitioned/Observe.antt =====
-- The metric rows of `AbstractPartitionedLimiter`.
use limen.Base.{false, true, List, [], ◌∷◌, ◌++◌, map, ℤ, Bool, String}
use limen.Limiter.Defs.{LimiterState}
use limen.Limiter.Observe.{Row, Instrument, gauge}
use limen.Limiter.Observe
use limen.Partitioned.Defs.{Partition, Pools, Wrapped}

unfoldable pub register_partition_instruments : Bool → List Instrument
register_partition_instruments false = []
register_partition_instruments true =
    record {
      kind = gauge;
      name = "limen.limit.partition";
      description = "Per-partition concurrency cap.";
      unit = "1";
    }
    ∷ []

unfoldable pub delayed_thread_count : {D : Type 0} → Pools D → ℤ
delayed_thread_count p = p.delayed_threads

module _ {D : Type 0} (id : String) where
  -- A row for each partition.
  abbrev rows_by : (Partition D → ℤ) → List (Partition D) → List Row
  rows_by read partitions =
      map
        (λ part. record {
          value = read part;
          attributes = ("id", id) ∷ ("partition", part.name) ∷ [];
        })
        partitions

  unfoldable pub observe_partition_limit : Pools D → List Row
  observe_partition_limit p = rows_by (λ part. part.limit) p.partitions

  -- The base class's row comes first.
  unfoldable pub on_observe_inflight : {S : Type 0} → LimiterState (Wrapped S D) → List Row
  on_observe_inflight s =
      Observe.on_observe_inflight id s ++ rows_by (λ part. part.busy) s.limit.1.world.partitions
