-- ===== src/Codel/Config.antt =====
-- `CodelFilter::Builder`: the accumulated configuration and what `Build` accepts.
use limen.Base.{
  ℕ, Bool, true, false, not, ◌≡◌, ◌↔◌, if◌then◌else◌, List, Option, none, some, String, arith,
}
use limen.Limiter.Observe.{Instrument}
use limen.Codel.Time.{AbslTime}
use limen.Codel.Filter.{Codel, init}
use limen.Codel.Observe.{register_observable_instruments}

pub data BuildError : Type 0 where
  target_not_positive interval_not_positive : BuildError

pub data BuildResult (A : Type 0) : Type 0 where
  built : A → BuildResult A
  invalid_argument : BuildError → BuildResult A

-- With a clock of type `C`, which may be null. Of the meter provider it matters only that there is one.
pub record Builder (a : AbslTime) (C : Type 0) : Type 0 where
  pub target : a.Duration
  pub interval : a.Duration
  pub clock : Option C
  pub id : String
  pub has_meter_provider : Bool

-- What the constructor makes: the state, the const members, and the instruments that it registers.
pub record Filter (a : AbslTime) (C : Type 0) : Type 0 where
  pub state : Codel a
  pub clock : C
  pub id : String
  pub instruments : List Instrument

module _ (a : AbslTime) {C : Type 0} where
  open a use {Duration, zero_duration, duration_lt}

  -- The members' initial values, 5 ms and 100 ms.
  unfoldable pub default_builder : (ℕ → Duration) → Builder a C
  default_builder milliseconds = record {
    target = milliseconds 5;
    interval = milliseconds 100;
    clock = none;
    id = "";
    has_meter_provider = false;
  }

  -- The setters.
  unfoldable pub with_target : Builder a C → Duration → Builder a C
  with_target b v = record b { target = v }

  unfoldable pub with_interval : Builder a C → Duration → Builder a C
  with_interval b v = record b { interval = v }

  unfoldable pub with_clock : Builder a C → Option C → Builder a C
  with_clock b v = record b { clock = v }

  unfoldable pub with_id : Builder a C → String → Builder a C
  with_id b v = record b { id = v }

  unfoldable pub with_meter_provider : Builder a C → Bool → Builder a C
  with_meter_provider b v = record b { has_meter_provider = v }

  -- The clock that was set, or else `absl::Now`, an argument.
  unfoldable pub clock_or : C → Option C → C
  clock_or absl_now none = absl_now
  clock_or absl_now (some clock) = clock

  unfoldable pub construct : C → Builder a C → Filter a C
  construct absl_now b = record {
    state = init a b.target b.interval;
    clock = clock_or absl_now b.clock;
    id = b.id;
    instruments = register_observable_instruments b.has_meter_provider;
  }

  -- `x <= 0` is `!(0 < x)`.
  unfoldable pub build : C → Builder a C → BuildResult (Filter a C)
  build absl_now b =
      if not (duration_lt zero_duration b.target)
      then invalid_argument target_not_positive
      else if not (duration_lt zero_duration b.interval)
      then invalid_argument interval_not_positive
      else built (construct absl_now b)

  -- `Build` yields a filter exactly when both durations are positive; it is then idle, with what the
  -- setters gave it, and with `absl::Now` where no clock was set.
  pub build-construct :
      (absl_now : C) (b : Builder a C)
      → (build absl_now b ≡ built (construct absl_now b)) ↔ (
          (duration_lt zero_duration b.target ≡ true)
          × (duration_lt zero_duration b.interval ≡ true))
  unfolding build
  build-construct absl_now b = ground arith
