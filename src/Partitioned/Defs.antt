-- ===== src/Partitioned/Defs.antt =====
-- The partitions' counters and limits, the gate of the partitioned limiter, and its constructor.
use limen.Base.{
  ℕ, suc, Bool, true, if◌then◌else◌, ℤ, pos, negsuc, leb_ℤ, ltb_ℤ, eqb_ℤ, max_ℤ, add32, sub32, List,
  [], ◌∷◌, ◌++◌, map, Option, none, some, String, get_elem?, set, length, add32, sub32,
}
use limen.Double.{DoubleOps}
use limen.Limit.Defs.{LimitOps, AbstractLimit, Update, notify_on_change, get_limit, on_sample}
use limen.Limiter.Defs.{LimiterState, AcquireResult, Gate}
use limen.Partitioned.Names.{find, unknown}
use limen.Partitioned.Config.{PartitionSpec, Config}

pub record Partition (D : Type 0) : Type 0 where
  pub name : String
  pub percent : D
  pub reject_delay : ℤ
  pub busy : ℤ
  pub limit : ℤ

-- The limiter's members that change. `slept` lists what `sleep_fn_` was called with, latest first.
pub record Pools (D : Type 0) : Type 0 where
  pub partitions : List (Partition D)
  pub delayed_threads : ℤ
  pub slept : List ℤ

-- The limiter's const members.
pub record Routing : Type 0 where
  pub partition_index_by_name : List (String × ℕ)
  pub resolvers : List (String → Option String)
  pub unknown_partition_index : ℕ
  pub max_delayed_threads : ℤ

-- `ResolvePartition`, whose loop runs over the resolvers.
unfoldable pub try_name : List (String × ℕ) → Option String → Option ℕ
try_name by_name none = none
try_name by_name (some name) = find by_name name

unfoldable pub resolve_with : Routing → List (String → Option String) → String → ℕ
resolve_with r [] context = r.unknown_partition_index
resolve_with r (resolver ∷ rest) context =
    let others = resolve_with r rest context in
    elim (try_name r.partition_index_by_name (resolver context)) [ none ↦ others | some i ↦ i ]

unfoldable pub resolve_partition : Routing → String → ℕ
resolve_partition r context = resolve_with r r.resolvers context

-- The wrapped limit of class `AbstractLimit`, whose callbacks act on the pools.
abbrev pub Wrapped : Type 0 → Type 0 → Type 0
Wrapped S D = S × AbstractLimit (Pools D)

module _ {D : Type 0} where
  -- The reservation and the sleep of `MaybeBackoffDelay`, when no other thread comes between.
  unfoldable pub maybe_backoff_delay : Routing → Partition D → Pools D → Pools D
  maybe_backoff_delay r part p =
      if eqb_ℤ part.reject_delay (pos 0)
      then p
      else (if ltb_ℤ p.delayed_threads r.max_delayed_threads
          then record p {
            delayed_threads = sub32 (add32 p.delayed_threads (pos 1)) (pos 1);
            slept = part.reject_delay ∷ p.slept;
          }
          else p)

  unfoldable pub enter : Partition D → Partition D
  enter part = record part { busy = add32 part.busy (pos 1) }

  unfoldable pub leave : Partition D → Partition D
  leave part = record part { busy = sub32 part.busy (pos 1) }

  -- A change of the partition at an index.
  unfoldable pub update_at :
      (Partition D → Partition D) → Option (Partition D) → ℕ → Pools D → Pools D
  update_at f none i p = p
  update_at f (some part) i p = record p { partitions = set p.partitions i (f part) }

module _ (d : DoubleOps) where
  open d use {Double, of_int, to_int, ceil, mul, decimal}

  unfoldable pub compute_partition_limit : ℤ → Double → ℤ
  compute_partition_limit global_limit percent =
      let computed = to_int (ceil (mul (of_int global_limit) percent)) in max_ℤ (pos 1) computed

  unfoldable pub relimit : ℤ → Partition Double → Partition Double
  relimit new_global_limit part = record part {
    limit = compute_partition_limit new_global_limit part.percent;
  }

  unfoldable pub recompute_partition_limits : ℤ → Pools Double → Pools Double
  recompute_partition_limits new_global_limit p = record p {
    partitions = map (relimit new_global_limit) p.partitions;
  }

  -- The runtime partitions that `Build` makes, the synthetic one at the end.
  unfoldable pub new_partition : PartitionSpec Double → Partition Double
  new_partition spec = record {
    name = spec.name;
    percent = spec.percent;
    reject_delay = spec.reject_delay;
    busy = pos 0;
    limit = pos 0;
  }

  unfoldable pub new_partitions : List (PartitionSpec Double) → List (Partition Double)
  new_partitions specs =
      map new_partition specs
      ++ new_partition (record { name = unknown; percent = decimal 0 0; reject_delay = pos 0 }) ∷ []

  -- Each name with its place, written in order.
  unfoldable pub index_names : List (Partition Double) → ℕ → List (String × ℕ) → List (String × ℕ)
  index_names [] i by_name = by_name
  index_names (part ∷ rest) i by_name = index_names rest (suc i) ((part.name, i) ∷ by_name)

  unfoldable pub routing : {L : Type 0} → Config Double L → Routing
  routing c = record {
    partition_index_by_name = index_names (new_partitions c.specs) 0 [];
    resolvers = c.resolvers;
    unknown_partition_index = length c.specs;
    max_delayed_threads = c.max_delayed_threads;
  }

  -- The constructor: the limits are set once, then a callback on the limit keeps them.
  unfoldable pub attach : {S : Type 0} → List (PartitionSpec Double) → S × ℤ → Wrapped S Double
  attach specs (s, initial_limit) = (
    s,
    notify_on_change
        (record {
          limit = initial_limit;
          listeners = [];
          world =
              recompute_partition_limits initial_limit
                (record { partitions = new_partitions specs; delayed_threads = pos 0; slept = [] });
        })
        recompute_partition_limits,
  )

module _ {S D : Type 0} (update : Update S) (r : Routing) where
  -- The wrapped limit behind the interface.
  abbrev pub wrapped_limit : LimitOps (Wrapped S D)
  wrapped_limit = record { get_limit = λ l. get_limit l.1; on_sample = on_sample update }

  unfoldable pub with_pools : LimiterState (Wrapped S D) → Pools D → LimiterState (Wrapped S D)
  with_pools s p = record s { limit = (s.limit.0, record s.limit.1 { world = p }) }

  -- The decision on the resolved partition: idle capacity is lent, else the partition's own gate
  -- decides, its compare-and-swap succeeding at once.
  unfoldable pub is_admitted : LimiterState (Wrapped S D) → Partition D → Bool
  is_admitted s part =
      if leb_ℤ (get_limit s.limit.1) s.inflight then ltb_ℤ part.busy part.limit else true

  unfoldable pub acquire_in :
      LimiterState (Wrapped S D)
      → ℕ
      → Option (Partition D)
      → LimiterState (Wrapped S D) × Option AcquireResult
  acquire_in s i none = (s, none)
  acquire_in s i (some part) =
      let pools = s.limit.1.world in
      if is_admitted s part
      then (
        record (with_pools s (update_at enter (some part) i pools)) {
          inflight = add32 s.inflight (pos 1);
        },
        some (record { inflight_post = add32 s.inflight (pos 1); partition_index = pos i }),
      )
      else (with_pools s (maybe_backoff_delay r part pools), none)

  unfoldable pub do_acquire :
      LimiterState (Wrapped S D) → String → LimiterState (Wrapped S D) × Option AcquireResult
  do_acquire s context =
      let i = resolve_partition r context in acquire_in s i (get_elem? s.limit.1.world.partitions i)

  -- An index that came from `do_acquire` is not negative.
  unfoldable pub on_release_partition : LimiterState (Wrapped S D) → ℤ → LimiterState (Wrapped S D)
  on_release_partition s (pos i) =
      with_pools s (update_at leave (get_elem? s.limit.1.world.partitions i) i s.limit.1.world)
  on_release_partition s (negsuc n) = s

  abbrev pub partitioned_gate : Gate (Wrapped S D)
  partitioned_gate = record { do_acquire = do_acquire; on_release_partition = on_release_partition }

  -- The two accessors by name.
  unfoldable pub partition_inflight_count : Pools D → String → ℤ
  partition_inflight_count p name = elim (find r.partition_index_by_name name) [
    | none ↦ negsuc 0
    | some i ↦ elim (get_elem? p.partitions i) [ none ↦ negsuc 0 | some part ↦ part.busy ]
  ]

  unfoldable pub partition_limit_for : Pools D → String → ℤ
  partition_limit_for p name = elim (find r.partition_index_by_name name) [
    | none ↦ pos 0
    | some i ↦ elim (get_elem? p.partitions i) [ none ↦ pos 0 | some part ↦ part.limit ]
  ]
