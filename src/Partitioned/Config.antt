-- ===== src/Partitioned/Config.antt =====
-- `AbstractPartitionedLimiter::Builder`: the specs, and what `Build` accepts.
use limen.Base.{
  Bool, true, false, ◌||◌, if◌then◌else◌, ℤ, pos, ltb_ℤ, List, [], ◌∷◌, ◌++◌, Option, none, some,
  String, not,
}
use limen.Double.{DoubleOps}
use limen.Partitioned.Names.{same_name, unknown}

pub record PartitionSpec (D : Type 0) : Type 0 where
  pub name : String
  pub percent : D
  pub reject_delay : ℤ

pub record PendingRejectDelay : Type 0 where
  pub name : String
  pub delay : ℤ

-- What the setters accumulate. A resolver and the bypass predicate may be null functions. Of the meter
-- provider it matters only that there is one, and of the sleep function that there is one.
pub record Builder (D L : Type 0) : Type 0 where
  pub limit : Option L
  pub id : String
  pub bypass_predicate : Option (String → Bool)
  pub has_meter_provider : Bool
  pub has_sleep_fn : Bool
  pub partition_specs : List (PartitionSpec D)
  pub pending_reject_delays : List PendingRejectDelay
  pub partition_resolvers : List (Option (String → Option String))
  pub max_delayed_threads : ℤ

-- The checks of `Build` that can fail, in the source's order.
pub data BuildError : Type 0 where
  limit_required partition_required resolver_required negative_max_delayed_threads : BuildError
  empty_name reserved_name percent_range percent_sum : BuildError
  undeclared_partition null_resolver : BuildError

pub data BuildResult (A : Type 0) : Type 0 where
  built : A → BuildResult A
  refused : BuildError → BuildResult A

-- What the constructor gets: the `Params` of the base class, and its own. Where no sleep function is
-- injected, the default one sleeps.
pub record Config (D L : Type 0) : Type 0 where
  pub limit : L
  pub id : String
  pub bypass_predicate : Option (String → Bool)
  pub has_meter_provider : Bool
  pub sleeps_by_default : Bool
  pub specs : List (PartitionSpec D)
  pub resolvers : List (String → Option String)
  pub max_delayed_threads : ℤ

abbrev pub is_empty_name : String → Bool
is_empty_name name = same_name name ""

module _ {A B : Type 0} where
  unfoldable pub and_then : BuildResult A → (A → BuildResult B) → BuildResult B
  and_then (built a) f = f a
  and_then (refused e) f = refused e

module _ {D : Type 0} where
  -- `FindOrAddPartitionSpec`, and the assignment that `Partition` makes through its result.
  unfoldable pub set_percent : String → D → List (PartitionSpec D) → List (PartitionSpec D)
  set_percent name percent [] = record { name = name; percent = percent; reject_delay = pos 0 } ∷ []
  set_percent name percent (spec ∷ rest) =
      let others = set_percent name percent rest in
      if same_name spec.name name then record spec { percent = percent } ∷ rest else spec ∷ others

  -- The loop that resolves one pending delay.
  unfoldable pub set_delay : String → ℤ → List (PartitionSpec D) → Option (List (PartitionSpec D))
  set_delay name delay [] = none
  set_delay name delay (spec ∷ rest) =
      let others = set_delay name delay rest in
      if same_name spec.name name
      then some (record spec { reject_delay = delay } ∷ rest)
      else elim others [ none ↦ none | some specs ↦ some (spec ∷ specs) ]

  unfoldable pub set_delays :
      List PendingRejectDelay → List (PartitionSpec D) → BuildResult (List (PartitionSpec D))
  set_delays [] specs = built specs
  set_delays (pending ∷ rest) specs = elim (set_delay pending.name pending.delay specs) [
    | none ↦ refused undeclared_partition
    | some specs' ↦ set_delays rest specs'
  ]

-- Every resolver is set.
unfoldable pub check_resolvers :
    List (Option (String → Option String)) → BuildResult (List (String → Option String))
check_resolvers [] = built []
check_resolvers (none ∷ rest) = refused null_resolver
check_resolvers (some resolver ∷ rest) =
    and_then (check_resolvers rest) λ resolvers. built (resolver ∷ resolvers)

abbrev pub unless : {A : Type 0} → Bool → BuildError → BuildResult A → BuildResult A
unless true e r = refused e
unless false e r = r

abbrev pub is_nil : {A : Type 0} → List A → Bool
is_nil [] = true
is_nil (x ∷ xs) = false

module _ (d : DoubleOps) where
  open d use {Double, decimal, add, lt}

  module _ {L : Type 0} where
    unfoldable pub default_builder : Builder Double L
    default_builder = record {
      limit = none;
      id = "";
      bypass_predicate = none;
      has_meter_provider = false;
      has_sleep_fn = false;
      partition_specs = [];
      pending_reject_delays = [];
      partition_resolvers = [];
      max_delayed_threads = pos 100;
    }

    unfoldable pub with_limit : L → Builder Double L → Builder Double L
    with_limit limit b = record b { limit = some limit }

    unfoldable pub with_id : String → Builder Double L → Builder Double L
    with_id id b = record b { id = id }

    unfoldable pub with_bypass_predicate :
        Option (String → Bool) → Builder Double L → Builder Double L
    with_bypass_predicate predicate b = record b { bypass_predicate = predicate }

    unfoldable pub with_meter_provider : Bool → Builder Double L → Builder Double L
    with_meter_provider provider b = record b { has_meter_provider = provider }

    -- A function, or a null one.
    unfoldable pub with_sleep_fn : Bool → Builder Double L → Builder Double L
    with_sleep_fn sleep_fn b = record b { has_sleep_fn = sleep_fn }

    unfoldable pub with_partition : String → Double → Builder Double L → Builder Double L
    with_partition name percent b = record b {
      partition_specs = set_percent name percent b.partition_specs;
    }

    unfoldable pub with_reject_delay : String → ℤ → Builder Double L → Builder Double L
    with_reject_delay name delay b = record b {
      pending_reject_delays = b.pending_reject_delays ++ record { name = name; delay = delay } ∷ [];
    }

    unfoldable pub with_resolver :
        Option (String → Option String) → Builder Double L → Builder Double L
    with_resolver resolver b = record b {
      partition_resolvers = b.partition_resolvers ++ resolver ∷ [];
    }

    unfoldable pub with_max_delayed_threads : ℤ → Builder Double L → Builder Double L
    with_max_delayed_threads max b = record b { max_delayed_threads = max }

  -- The validation of each spec.
  unfoldable pub check_specs :
      List (PartitionSpec Double) → BuildResult (List (PartitionSpec Double))
  check_specs [] = built []
  check_specs (spec ∷ rest) =
      let others = check_specs rest in
      unless (is_empty_name spec.name) empty_name (
        unless (same_name spec.name unknown) reserved_name (
          unless (lt spec.percent (decimal 0 0) || lt (decimal 1 0) spec.percent) percent_range
            (and_then others λ specs. built (spec ∷ specs))))

  unfoldable pub sum_from : Double → List (PartitionSpec Double) → Double
  sum_from sum [] = sum
  sum_from sum (spec ∷ rest) = sum_from (add sum spec.percent) rest

  unfoldable pub validate : {L : Type 0} → Builder Double L → L → BuildResult (Config Double L)
  validate b limit = unless (is_nil b.partition_specs) partition_required (
      unless (is_nil b.partition_resolvers) resolver_required (
        unless (ltb_ℤ b.max_delayed_threads (pos 0)) negative_max_delayed_threads (
          and_then (check_specs b.partition_specs) λ specs.
            unless (lt (add (decimal 1 0) (decimal 1 9)) (sum_from (decimal 0 0) specs)) percent_sum
              (and_then (set_delays b.pending_reject_delays specs) λ delayed.
                and_then (check_resolvers b.partition_resolvers) λ resolvers. built (record {
                  limit = limit;
                  id = b.id;
                  bypass_predicate = b.bypass_predicate;
                  has_meter_provider = b.has_meter_provider;
                  sleeps_by_default = not b.has_sleep_fn;
                  specs = delayed;
                  resolvers = resolvers;
                  max_delayed_threads = b.max_delayed_threads;
                })))))

  unfoldable pub build : {L : Type 0} → Builder Double L → BuildResult (Config Double L)
  build b = elim b.limit [ none ↦ refused limit_required | some limit ↦ validate b limit ]
