-- ===== src/Codel/Observe.antt =====
-- What `CodelFilter` lets others read: its accessors, and the metric rows that its callbacks emit.
use limen.Base.{ℕ, Bool, false, true, List, [], ◌∷◌, ℤ, pos, String, if◌then◌else◌}
use limen.Codel.Time.{AbslTime}
use limen.Codel.Filter.{Codel}
use limen.Limiter.Observe.{Row, Instrument, counter, up_down_counter}

unfoldable pub register_observable_instruments : Bool → List Instrument
register_observable_instruments false = []
register_observable_instruments true =
    record {
      kind = counter;
      name = "limen.codel.drops";
      description = "Cumulative count of items the CoDel filter has dropped.";
      unit = "1";
    }
    ∷ record {
      kind = up_down_counter;
      name = "limen.codel.dropping";
      description = "Whether the CoDel filter is currently in drop mode (0 or 1).";
      unit = "1";
    }
    ∷ []

module _ {a : AbslTime} where
  unfoldable pub is_dropping : Codel a → Bool
  is_dropping f = f.dropping

  unfoldable pub drop_count_of : Codel a → ℤ
  drop_count_of f = f.drop_count

  unfoldable pub drop_episode_count : Codel a → ℕ
  drop_episode_count f = f.count

  unfoldable pub drop_next_of : Codel a → a.Time
  drop_next_of f = f.drop_next

  unfoldable pub observe_drops : String → Codel a → List Row
  observe_drops id f = record { value = f.drop_count; attributes = ("id", id) ∷ [] } ∷ []

  unfoldable pub observe_dropping : String → Codel a → List Row
  observe_dropping id f =
      record { value = if f.dropping then pos 1 else pos 0; attributes = ("id", id) ∷ [] } ∷ []
