-- ===== src/Examples/Filter.antt =====
-- `CodelFilter` on a clock of nanoseconds: a target of 5, an interval of 100.
use limen.Base.{
  ℕ, ◌≡◌, ◌<◌, ◌^◌, ◌-◌, ◌&&◌, ◌||◌, not, true, List, [], ◌∷◌, pos, int64, arith, some, refl,
}
use limen.Codel.Time.{nanoseconds, nanoseconds-IsTimeEq}
use limen.Codel.Filter.{
  init, should_drop, decide, ok_to_drop, sojourn_of, scheduled_drop, enter_drop, entry_count,
  control_law,
}
use limen.Codel.History.{Call, after, verdict, is_overloaded, drops}
use limen.Codel.Overload.{SetAt, after-dropping, verdict_lem}
use limen.Codel.Episodes.{IsCounting, after-drop_count, after-IsCounting}
use limen.Codel.Schedule.{schedule, began, after-drop_next}

abbrev late : Call nanoseconds
late = record { now = 250; enqueue_time = 100 }

-- Two items before it have waited for too long as well, the first more than an interval earlier.
abbrev earlier : List (Call nanoseconds)
earlier = record { now = 120; enqueue_time = 20 } ∷ record { now = 110; enqueue_time = 10 } ∷ []

is_set : (t : ℕ) → SetAt nanoseconds 5 100 t
is_set t e = absurd (omega (arith, e))

verdict_lem_example : verdict nanoseconds 5 100 late earlier ≡ (
    is_overloaded nanoseconds 5 100 (late ∷ earlier)
    && (not (is_overloaded nanoseconds 5 100 earlier)
        || not (nanoseconds.time_lt late.now (after nanoseconds 5 100 earlier).drop_next)))
verdict_lem_example =
    verdict_lem nanoseconds 5 100 nanoseconds-IsTimeEq late earlier (is_set 120, (is_set 110, tt))

after-dropping_example :
    (after nanoseconds 5 100 (late ∷ earlier)).dropping
    ≡ is_overloaded nanoseconds 5 100 (late ∷ earlier)
after-dropping_example =
    after-dropping nanoseconds 5 100 nanoseconds-IsTimeEq (late ∷ earlier)
      (is_set 250, (is_set 120, (is_set 110, tt)))

after-drop_count_example :
    (after nanoseconds 5 100 (late ∷ earlier)).drop_count
    ≡ int64 (pos (drops nanoseconds 5 100 (late ∷ earlier)))
after-drop_count_example = after-drop_count nanoseconds 5 100 (late ∷ earlier)

few_drops : drops nanoseconds 5 100 [] < 2 ^ 32 - 1
few_drops = omega arith

-- One item more, so that the newest of them begins an episode.
abbrev overloaded : List (Call nanoseconds)
overloaded = late ∷ earlier

few : drops nanoseconds 5 100 overloaded < 2 ^ 32 - 1
unfolding verdict after should_drop decide ok_to_drop sojourn_of scheduled_drop enter_drop
    entry_count control_law init
few = omega arith

after-IsCounting_example :
    IsCounting nanoseconds 5 100
      (drops nanoseconds 5 100 overloaded)
      (after nanoseconds 5 100 overloaded)
after-IsCounting_example = after-IsCounting nanoseconds 5 100 overloaded few

begins : began nanoseconds 5 100 overloaded ≡ some 250
unfolding after should_drop decide ok_to_drop sojourn_of scheduled_drop enter_drop entry_count
    control_law init
begins = refl

after-drop_next_example :
    let f = after nanoseconds 5 100 overloaded in
    (f.dropping ≡ true)
    × (f.drop_next ≡ schedule nanoseconds 5 100 f.lastcount 250 (f.count - f.lastcount))
after-drop_next_example = after-drop_next nanoseconds 5 100 overloaded 250 few begins
