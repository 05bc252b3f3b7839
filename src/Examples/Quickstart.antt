-- ===== src/Examples/Quickstart.antt =====
-- The example program over three requests.
use limen.Base.{ℕ, ◌*◌, ◌≡◌, refl, ◌≤ℤ◌, ◌+ℤ◌, ℤ, pos, List, [], ◌∷◌, some, All, arith}
use limen.Double.{thousandths, thousandths-IsCast}
use limen.Codel.Time.{nanoseconds}
use limen.Codel.Filter.{sojourn_of}
use limen.Window.Average.{AverageWindow, average_window}
use limen.Window.Average
use limen.Stack.Defs.{stack_limit}
use limen.Stack.Quickstart.{Reading, Demo, Chain, main}
use limen.Stack.Main.{main-counts}
use limen.Stack.Immediate.{IsShort, main-admits}

abbrev milliseconds : ℕ → ℕ
milliseconds n = n * 1000000

abbrev round : ℕ → Reading nanoseconds
round n = record { acquired_ns = pos n; enqueued = n; dequeued = n; completed_ns = pos (n * 2) }

abbrev readings : List (Reading nanoseconds)
readings = round 1000 ∷ round 2000 ∷ round 3000 ∷ []

abbrev Ended : Type 0
Ended = Demo nanoseconds (Chain thousandths AverageWindow ℤ)

main-counts_example :
    (s : Ended) × (main nanoseconds milliseconds thousandths average_window Average.init
        (pos 0)
        readings
      ≡ some s)
    × (s.rejected ≡ pos 0)
    × (s.admitted +ℤ s.dropped ≡ pos 3)
    × (s.limiter.inflight ≡ pos 0)
    × (pos 10 ≤ℤ (stack_limit thousandths average_window).get_limit s.limiter.limit)
    × ((stack_limit thousandths average_window).get_limit s.limiter.limit ≤ℤ pos 200)
main-counts_example =
    main-counts nanoseconds milliseconds thousandths thousandths-IsCast average_window Average.init
      (pos 0) readings (omega arith) refl refl

short : All (IsShort nanoseconds (milliseconds 5)) readings
unfolding sojourn_of
short = (refl, (refl, (refl, tt)))

main-admits_example :
    (s : Ended) × (main nanoseconds milliseconds thousandths average_window Average.init
        (pos 0)
        readings
      ≡ some s)
    × (s.dropped ≡ pos 0)
    × (s.admitted ≡ pos 3)
main-admits_example =
    main-admits nanoseconds milliseconds thousandths thousandths-IsCast average_window Average.init
      (pos 0) readings (omega arith) refl refl short
