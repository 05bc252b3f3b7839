-- ===== src/Examples/Threads.antt =====
-- Threads in the partitioned limiter, and the loop of the simple one.
use limen.Base.{
  All, pos_part, ℕ, ◌≡◌, refl, false, [], ◌∷◌, pos, ◌≤ℤ◌, int32, sum_of, replicate, arith, true,
  if◌then◌else◌, ◌==◌,
}
use limen.Partitioned.Threads.{
  Settings, System, idle, resolved, resolve, Step, moves, Reach, start, later,
}
use limen.Partitioned.Moves.{holds, stays_in, sleeps}
use limen.Partitioned.Counters.{Reach-counters}
use limen.Partitioned.Settled.{Settled, sum_below, Reach-sum_below}
use limen.Simple.Loop.{Others, IsQuiet, IsRight, ends, acquire_loop, acquire_loop-settles}

abbrev settings : Settings
settings = record {
  cap_now = pos 2;
  limit = λ i. pos 1;
  reject_delay = λ i. pos 5;
  max_delayed_threads = pos 1;
}

abbrev started : System
started = record {
  counters = record { inflight = pos 0; busy = λ i. pos 0; delayed_threads = pos 0 };
  settings = settings;
  threads = replicate 2 idle;
}

abbrev one_resolved : System
one_resolved = record started { threads = resolved 0 ∷ idle ∷ [] }

first_resolves : Step started one_resolved
first_resolves = moves [] (idle ∷ []) idle refl (resolve 0)

reached : Reach one_resolved
reached = later (start settings 2) first_resolves

Reach-counters_example :
    (pos 0 ≡ int32 (pos (sum_of holds one_resolved.threads)))
    × ((j : ℕ) → pos 0 ≡ int32 (pos (sum_of (stays_in j) one_resolved.threads)))
    × (pos 0 ≡ pos (sum_of sleeps one_resolved.threads))
    × (pos (sum_of sleeps one_resolved.threads) ≤ℤ pos 1)
Reach-counters_example = Reach-counters one_resolved (omega arith) (omega arith) reached

settled : All (Settled 1) one_resolved.threads
settled = (tt, (tt, tt))

Reach-sum_below_example : pos (sum_below (λ j. pos_part (one_resolved.counters.busy j)) 1) ≡ pos 0
Reach-sum_below_example =
    Reach-sum_below one_resolved 1 (omega arith) (omega arith) (omega arith) settled reached

-- Another thread takes a slot before the first exchange, of a limit of 5.
abbrev others : Others
others = record {
  cap = λ k. pos 5;
  live = λ k. pos 3;
  spurious = λ k. if k == 0 then true else false;
}

quiet : IsQuiet others 1 (pos 3)
quiet = record { lives = λ j h. refl; exact = λ j h. ground arith }

acquire_loop-settles_example :
    let r = acquire_loop others 3 0 (pos 2) in (ends r ≡ true) × IsRight others (pos 2) r
acquire_loop-settles_example = acquire_loop-settles others (pos 2) (pos 3) 1 quiet
