-- ===== src/Codel/History.antt =====
-- Runs of the filter: a history of calls, newest first, and what an observer reads off it without
-- the filter's state.
use limen.Base.{ℕ, ◌+◌, Bool, false, not, if◌then◌else◌, List, [], ◌∷◌, Option, none, some}
use limen.Codel.Time.{AbslTime}
use limen.Codel.Filter.{Codel, init, should_drop, sojourn_of}

-- One call of `ShouldDrop`: what the clock reads, and the argument.
pub record Call (a : AbslTime) : Type 0 where
  pub now : a.Time
  pub enqueue_time : a.Time

module _ (a : AbslTime) (target interval : a.Duration) where
  open a use {Time, time_add, time_lt, duration_lt}

  -- The filter after a history, and the verdict on its newest call.
  unfoldable pub after : List (Call a) → Codel a
  after [] = init a target interval
  after (c ∷ past) = (should_drop a (after past) c.now c.enqueue_time).0

  unfoldable pub verdict : Call a → List (Call a) → Bool
  verdict c past = (should_drop a (after past) c.now c.enqueue_time).1

  -- The item waited for less than the target.
  abbrev pub is_below : Call a → Bool
  is_below c = duration_lt (sojourn_of a c.now c.enqueue_time) target

  -- When the current run of calls that are all at or above the target began.
  abbrev pub above_since : List (Call a) → Option Time
  above_since [] = none
  above_since (c ∷ past) =
      if is_below c then none else elim (above_since past) [ none ↦ some c.now | some t ↦ some t ]

  -- That run began before the newest call and has lasted for an interval.
  abbrev pub lasted : Option Time → Time → Bool
  lasted none now = false
  lasted (some t) now = not (time_lt now (time_add t interval))

  abbrev pub is_overloaded : List (Call a) → Bool
  is_overloaded [] = false
  is_overloaded (c ∷ past) = if is_below c then false else lasted (above_since past) c.now

  -- The drops of a history.
  abbrev pub drops : List (Call a) → ℕ
  drops [] = 0
  drops (c ∷ past) = (if verdict c past then 1 else 0) + drops past
