-- ===== src/Limiter/Observe.antt =====
-- What `AbstractLimiter` lets others read: its accessors, and the metric rows that its callbacks emit.
use limen.Base.{◌≡◌, ℤ, pos, ◌+ℤ◌, List, [], ◌∷◌, map, Bool, true, false, String, Option, int64}
use limen.Limit.Defs.{LimitOps}
use limen.Limiter.Account.{IsGate, Op, after, in_flight, attempts}
use limen.Limiter.Ledger.{after-Accounts}
use limen.Limiter.Defs.{Status, LimiterState, status_label, Gate}

-- One observation: a value with its attributes, in the order of their keys.
pub record Row : Type 0 where
  pub value : ℤ
  pub attributes : List (String × String)

-- An instrument: its kind, name, description and unit.
pub data InstrumentKind : Type 0 where
  gauge up_down_counter counter histogram : InstrumentKind

pub record Instrument : Type 0 where
  pub kind : InstrumentKind
  pub name : String
  pub description : String
  pub unit : String

-- The statuses by their integer values.
abbrev pub statuses : List Status
statuses = Status.success ∷ Status.rejected ∷ Status.dropped ∷ Status.ignored ∷ Status.bypassed ∷ []

-- Without a meter provider there are none.
unfoldable pub register_observable_instruments : Bool → List Instrument
register_observable_instruments false = []
register_observable_instruments true =
    record {
      kind = gauge;
      name = "limen.limit";
      description = "Current concurrency cap.";
      unit = "1";
    }
    ∷ record {
      kind = up_down_counter;
      name = "limen.inflight";
      description = "Requests currently in progress.";
      unit = "1";
    }
    ∷ record {
      kind = counter;
      name = "limen.call";
      description = "Cumulative outcomes of admission decisions.";
      unit = "1";
    }
    ∷ []

module _ {L : Type 0} where
  unfoldable pub inflight_count : LimiterState L → ℤ
  inflight_count s = s.inflight

  unfoldable pub outcome_count : LimiterState L → Status → ℤ
  outcome_count s status = s.outcome_counts status

  unfoldable pub on_observe_inflight : String → LimiterState L → List Row
  on_observe_inflight id s = record { value = s.inflight; attributes = ("id", id) ∷ [] } ∷ []

  -- One row for each status.
  unfoldable pub observe_call : String → LimiterState L → List Row
  observe_call id s =
      map
        (λ status. record {
          value = s.outcome_counts status;
          attributes = ("id", id) ∷ ("status", status_label status) ∷ [];
        })
        statuses

  unfoldable pub observe_limit : LimitOps L → String → LimiterState L → List Row
  observe_limit limit id s =
      record { value = limit.get_limit s.limit; attributes = ("id", id) ∷ [] } ∷ []

-- The values of rows, added up.
abbrev pub total_from : ℤ → List Row → ℤ
total_from z [] = z
total_from z (row ∷ rest) = total_from (z +ℤ row.value) rest

abbrev pub total : List Row → ℤ
total [] = pos 0
total (row ∷ rest) = total_from row.value rest

-- The rows of `limen.call` and the slots in flight account for every attempt, modulo 2^64.
pub observe_call-Accounts :
    {L : Type 0} (limit : LimitOps L) (gate : Gate L) (bypass : Option (String → Bool))
    → IsGate gate
    → (id : String) (l : L) (history : List Op)
    → let w = after limit gate bypass l history in
      int64 (total (observe_call id w.state) +ℤ pos (in_flight w.guards))
      ≡ int64 (pos (attempts history))
unfolding observe_call
observe_call-Accounts limit gate bypass laws id l history =
    (after-Accounts limit gate bypass laws l history).1
