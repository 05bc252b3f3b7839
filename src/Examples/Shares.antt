-- ===== src/Examples/Shares.antt =====
-- A partitioned limiter with one partition of a half.
use limen.Base.{
  ℕ, zero, suc, ap, arith, IsInt32, true, false, add32, int32, ◌+ℤ◌, ◌≡◌, ◌<◌, refl, List, [], ◌∷◌,
  map, pos, Option, none, some, String, length, get_elem?,
}
use limen.Double.{thousandths}
use limen.Limit.Defs.{Update, get_limit}
use limen.Limiter.Guard.{CompletionStatus, SlotGuard, make_slot}
use limen.Limiter.Defs.{Status, LimiterState, is_bypassed, admit, do_try_acquire, count_outcome}
use limen.Limiter.Account.{Op, acquires, completes, after}
use limen.Partitioned.Config.{
  PartitionSpec, Builder, Config, build, built, check_specs, check_resolvers, set_delays, sum_from,
  and_then, validate,
}
use limen.Partitioned.Names.{find}
use limen.Partitioned.Defs.{
  Partition, Routing, Wrapped, resolve_partition, resolve_with, try_name, do_acquire, routing,
  new_partitions, wrapped_limit, partitioned_gate, attach, acquire_in, is_admitted, with_pools,
  update_at, enter,
}
use limen.Partitioned.Threads.{Counters, Settings}
use limen.Partitioned.Viewed.{Views, Simulated, some-injective}
use limen.Partitioned.Solo.{acquire_in-Simulated}
use limen.Partitioned.Undo.{given_back, acquire-ignored}
use limen.Partitioned.Resolve.{resolve_partition-lt}
use limen.Partitioned.Limits.{shares, limits_for, after-limits}
use limen.Partitioned.Accepted.{IsAccepted, build-IsAccepted}

abbrev live : PartitionSpec thousandths.Double
live = record { name = "live"; percent = pos 500; reject_delay = pos 0 }

abbrev to_live : String → Option String
to_live context = some "live"

abbrev config : Config thousandths.Double ℕ
config = record {
  limit = 0;
  id = "demo";
  bypass_predicate = none;
  has_meter_provider = true;
  sleeps_by_default = true;
  specs = live ∷ [];
  resolvers = to_live ∷ [];
  max_delayed_threads = pos 100;
}

resolve_partition-lt_example :
    resolve_partition (routing thousandths config) "a"
    < length (new_partitions thousandths (live ∷ []))
resolve_partition-lt_example = resolve_partition-lt thousandths config "a"

abbrev builder : Builder thousandths.Double ℕ
builder = record {
  limit = some 0;
  id = "demo";
  bypass_predicate = none;
  has_meter_provider = true;
  has_sleep_fn = false;
  partition_specs = live ∷ [];
  pending_reject_delays = [];
  partition_resolvers = some to_live ∷ [];
  max_delayed_threads = pos 100;
}

builds : build thousandths builder ≡ built config
unfolding build validate check_specs check_resolvers set_delays sum_from and_then
builds = refl

build-IsAccepted_example : IsAccepted thousandths builder config
build-IsAccepted_example = build-IsAccepted thousandths builder config builds

abbrev echo : Update (Unit {0})
echo s start rtt inflight did_drop = (s, rtt)

abbrev routes : Routing
routes = record {
  partition_index_by_name = ("live", 0) ∷ [];
  resolvers = to_live ∷ [];
  unknown_partition_index = 1;
  max_delayed_threads = pos 100;
}

abbrev live_part : Partition thousandths.Double
live_part = record {
  name = "live";
  percent = pos 500;
  reject_delay = pos 0;
  busy = pos 2;
  limit = pos 5;
}

-- The limit of 10 is used up.
abbrev full : LimiterState (Wrapped (Unit {0}) thousandths.Double)
full = record {
  inflight = pos 10;
  outcome_counts = λ status. pos 0;
  limit = (
    tt,
    record {
      limit = pos 10;
      listeners = [];
      world = record { partitions = live_part ∷ []; delayed_threads = pos 0; slept = [] };
    },
  );
}

resolves : get_elem? full.limit.1.world.partitions (resolve_partition routes "a") ≡ some live_part
unfolding resolve_partition resolve_with try_name find
resolves = refl

-- So is the share of 5, and a rejected call is delayed.
abbrev spent_part : Partition thousandths.Double
spent_part = record live_part { busy = pos 5; reject_delay = pos 40 }

abbrev spent : LimiterState (Wrapped (Unit {0}) thousandths.Double)
spent = record full {
  limit = (
    tt,
    record full.limit.1 {
      world = record { partitions = spent_part ∷ []; delayed_threads = pos 3; slept = [] };
    },
  );
}

abbrev history : List Op
history = completes (pos 27) 0 CompletionStatus.success ∷ acquires (pos 20) "a" ∷ []

after-limits_example :
    let l =
      (after
        (wrapped_limit echo routes)
        (partitioned_gate echo routes)
        none
        (attach thousandths (live ∷ []) (tt, pos 10))
        history).state.limit in
    shares l.1.world
    ≡ limits_for thousandths
        (map (λ part. part.percent) (new_partitions thousandths (live ∷ [])))
        (get_limit l.1)
after-limits_example = after-limits thousandths echo routes none (live ∷ []) tt (pos 10) history

-- Two are in flight, so that a call is let in.
abbrev idle : LimiterState (Wrapped (Unit {0}) thousandths.Double)
idle = record full { inflight = pos 2 }

abbrev granted : SlotGuard
granted = record {
  attached = true;
  start_time_ns = pos 20;
  inflight_at_acquire = pos 3;
  partition_index = pos 0;
  bypassed = false;
  completed = false;
}

not_bypassed :
    is_bypassed
      (wrapped_limit {D = thousandths.Double} echo routes)
      (partitioned_gate {D = thousandths.Double} echo routes)
      none
      "a"
    ≡ false
unfolding is_bypassed
not_bypassed = refl

busy_int :
    (i : ℕ) (part : Partition thousandths.Double)
    → get_elem? idle.limit.1.world.partitions i ≡ some part
    → IsInt32 part.busy
busy_int zero part e = at part (ap (λ o. elim o [ none ↦ pos 0 | some p ↦ p.busy ]) e)
  where
    at : (part : Partition thousandths.Double) → pos 2 ≡ part.busy → IsInt32 part.busy
    at part e = rw (← e) (omega arith)
busy_int (suc i) part e = cc

let_in :
    (do_try_acquire
      (wrapped_limit echo routes)
      (partitioned_gate echo routes)
      none
      (pos 20)
      idle
      "a").1
    ≡ some granted
unfolding do_try_acquire is_bypassed admit do_acquire acquire_in is_admitted with_pools update_at
    enter make_slot resolve_partition resolve_with try_name find add32 int32 ◌+ℤ◌ get_limit
let_in = refl

acquire-ignored_example :
    given_back echo routes none
      (pos 27)
      (do_try_acquire
        (wrapped_limit echo routes)
        (partitioned_gate echo routes)
        none
        (pos 20)
        idle
        "a").0
      granted
    ≡ count_outcome idle Status.ignored
acquire-ignored_example =
    acquire-ignored echo routes none (pos 20) (pos 27) idle "a" granted not_bypassed (omega arith)
      busy_int let_in

abbrev counters : Counters
counters = record { inflight = pos 10; busy = λ j. pos 2; delayed_threads = pos 0 }

abbrev settings : Settings
settings = record {
  cap_now = pos 10;
  limit = λ j. pos 5;
  reject_delay = λ j. pos 0;
  max_delayed_threads = pos 100;
}

shown_parts :
    (j : ℕ) (part : Partition thousandths.Double)
    → get_elem? full.limit.1.world.partitions j ≡ some part
    → (pos 2 ≡ part.busy) × (pos 5 ≡ part.limit) × (pos 0 ≡ part.reject_delay)
shown_parts zero part e =
    let same : live_part ≡ part = some-injective e in
    (ap (λ p. p.busy) same, ap (λ p. p.limit) same, ap (λ p. p.reject_delay) same)
shown_parts (suc j) part e = cc

full-Views : Views routes full counters settings
unfolding get_limit
full-Views = record {
  inflight = refl;
  delayed = refl;
  cap_now = refl;
  max_delayed = refl;
  partitions = shown_parts;
}

acquire_in-Simulated_example :
    Simulated routes counters settings 0 (acquire_in echo routes full 0 (some live_part))
acquire_in-Simulated_example =
    acquire_in-Simulated echo routes full counters settings 0 live_part full-Views refl
      (ground arith) (ground arith)
