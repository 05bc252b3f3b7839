-- ===== src/Codel/Filter.antt =====
-- The state machine of `CodelFilter`: the five variables of RFC 8289, and `ShouldDrop`,
-- `OkToDrop` and `ControlLaw`. The mutex makes each call one step; the clock's reading is an argument.
use limen.Base.{
  ℕ, Bool, true, false, not, ◌&&◌, ltb, if◌then◌else◌, ℤ, pos, u32_add, u32_sub, add64,
}
use limen.Codel.Time.{AbslTime}

pub record Codel (a : AbslTime) : Type 0 where
  -- configuration, never mutated
  pub target : a.Duration
  pub interval : a.Duration
  -- state under `mu_`
  pub first_above_time : a.Time
  pub drop_next : a.Time
  pub count : ℕ
  pub lastcount : ℕ
  pub dropping : Bool
  -- the atomic
  pub drop_count : ℤ

module _ (a : AbslTime) where
  open a use {
    Time, Duration, unix_epoch, zero_duration, time_add, time_sub, time_lt, time_eq, duration_lt,
    duration_mul, duration_div, double_of, sqrt,
  }

  -- The constructor, with the members' initial values.
  unfoldable pub init : Duration → Duration → Codel a
  init target interval = record {
    target = target;
    interval = interval;
    first_above_time = unix_epoch;
    drop_next = unix_epoch;
    count = 0;
    lastcount = 0;
    dropping = false;
    drop_count = pos 0;
  }

  unfoldable pub control_law : Codel a → Time → ℕ → Time
  control_law f t count = time_add t (duration_div f.interval (sqrt (double_of count)))

  -- `OkToDrop`: the new state, and the verdict.
  unfoldable pub ok_to_drop : Codel a → Duration → Time → Codel a × Bool
  ok_to_drop f sojourn now =
      if duration_lt sojourn f.target
      then (record f { first_above_time = unix_epoch }, false)
      else if time_eq f.first_above_time unix_epoch
      then (record f { first_above_time = time_add now f.interval }, false)
      else (f, not (time_lt now f.first_above_time))

  -- std::max(absl::ZeroDuration(), now - enqueue_time)
  unfoldable pub sojourn_of : Time → Time → Duration
  sojourn_of now enqueue_time =
      let waited = time_sub now enqueue_time in
      if duration_lt zero_duration waited then waited else zero_duration

  -- The branch of `ShouldDrop` that stays in the drop state: a drop when its scheduled time has come.
  unfoldable pub scheduled_drop : Codel a → Time → Codel a × Bool
  scheduled_drop f now = if time_lt now f.drop_next then (f, false) else (
    record f {
      count = u32_add f.count 1;
      drop_next = control_law f f.drop_next (u32_add f.count 1);
      drop_count = add64 f.drop_count (pos 1);
    },
    true,
  )

  -- The count that a new episode starts with: the growth of a recent one, or else 1.
  unfoldable pub entry_count : Codel a → Time → ℕ
  entry_count f now =
      let delta = u32_sub f.count f.lastcount in
      if ltb 1 delta && duration_lt (time_sub now f.drop_next) (duration_mul 16 f.interval)
      then delta
      else 1

  -- The branch of `ShouldDrop` that enters the drop state.
  unfoldable pub enter_drop : Codel a → Time → Codel a × Bool
  enter_drop f now =
      let count = entry_count f now in
      (
        record f {
          dropping = true;
          count = count;
          drop_next = control_law f now count;
          lastcount = count;
          drop_count = add64 f.drop_count (pos 1);
        },
        true,
      )

  -- What `ShouldDrop` does after `OkToDrop` has answered.
  unfoldable pub decide : Codel a × Bool → Time → Codel a × Bool
  decide (f, ok) now =
      if f.dropping
      then (if ok then scheduled_drop f now else (record f { dropping = false }, false))
      else if ok
      then enter_drop f now
      else (f, false)

  unfoldable pub should_drop : Codel a → Time → Time → Codel a × Bool
  should_drop f now enqueue_time = decide (ok_to_drop f (sojourn_of now enqueue_time) now) now
