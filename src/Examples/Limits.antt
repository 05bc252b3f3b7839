-- ===== src/Examples/Limits.antt =====
-- The limits and the measurements, with doubles of thousandths.
use limen.Base.{
  List, none, ◌≡◌, refl, true, false, [], ◌∷◌, ◌++◌, map, ℤ, pos, ◌≤ℤ◌, inl, arith, ltb_ℤ,
}
use limen.Double.{thousandths, thousandths-IsCast}
use limen.Limit.Defs.{LimitOps, AbstractLimit, get_limit, settable_limit, Update}
use limen.Limit.Tracing.{
  Sample, Tracing, run_tracing, run_limit, tracing_get_limit, trace_line, run_tracing-run_limit,
}
use limen.Measurement.Defs.{after_samples}
use limen.Measurement.ExpAvg.{exp_avg, reported, after_samples-reported}
use limen.Measurement.ExpAvg
use limen.Gradient.Defs.{Gradient2, Builder, update}
use limen.Gradient.Cap.{IsCapped, Capped, IsRange, update-Capped}
use limen.Gradient.Setup.{Setting, min_limit, queue_size_fn}
use limen.Gradient.Published.{IsSound, get_limit-after_samples}
use limen.Gradient.Published

-- A limit of 10 whose world is the last limit it was told.
abbrev ten : AbstractLimit ℤ
ten = record { limit = pos 10; listeners = (λ n w. n) ∷ []; world = pos 10 }

-- Answers the round-trip time as the new limit.
abbrev echo : Update (Unit {0})
echo s start rtt inflight did_drop = (s, rtt)

abbrev sample : Sample
sample = record { start_time_ns = pos 0; rtt_ns = pos 7000; inflight = pos 15; did_drop = false }

abbrev bare : LimitOps (AbstractLimit ℤ)
bare = settable_limit

abbrev traced : Tracing thousandths.Double (AbstractLimit ℤ)
traced = record { delegate = ten; lines = [] }

run_tracing-run_limit_example :
    let t = run_tracing thousandths bare traced (sample ∷ []) in
    (t.delegate ≡ run_limit thousandths bare ten (sample ∷ []))
    × (tracing_get_limit thousandths bare t
        ≡ bare.get_limit (run_limit thousandths bare ten (sample ∷ [])))
    × (t.lines ≡ [] ++ map (trace_line thousandths bare) (sample ∷ []))
run_tracing-run_limit_example = run_tracing-run_limit thousandths bare traced (sample ∷ [])

lt_irrefl : (x : ℤ) → ltb_ℤ x x ≡ false
lt_irrefl x = ground arith

lt_trans : (x y z : ℤ) → ltb_ℤ x y ≡ true → ltb_ℤ y z ≡ true → ltb_ℤ x z ≡ true
lt_trans x y z h k = ground arith

abbrev average : ExpAvg.ExpAvg thousandths.Double
average = record {
  value = pos 0;
  sum = pos 0;
  count = pos 0;
  window = pos 600;
  warmup_window = pos 10;
}

after_samples-reported_example :
    (exp_avg thousandths).get (
      after_samples
        (exp_avg thousandths)
        (ExpAvg.reset thousandths average)
        (pos 5000 ∷ pos 3000 ∷ []))
    ≡ reported thousandths (pos 600) (pos 10) (pos 5000 ∷ pos 3000 ∷ [])
after_samples-reported_example =
    after_samples-reported thousandths average (pos 5000 ∷ pos 3000 ∷ [])

-- A cap of 20 in a range from 20 to 200.
abbrev twenty : Gradient2 thousandths.Double
twenty = record {
  estimated_limit = pos 20000;
  long_rtt = average;
  min_limit = pos 20;
  max_limit = pos 200;
  queue_size_fn = λ n. pos 4;
  smoothing = pos 200;
  tolerance = pos 1500;
}

range : IsRange (pos 20) (pos 200)
range = record { lo_int = ground arith; hi_int = ground arith; lo_le = omega arith }

twenty-IsCapped : IsCapped thousandths twenty
twenty-IsCapped = inl refl

update-Capped_example :
    Capped thousandths thousandths-IsCast twenty
      (update thousandths twenty (pos 0) (pos 7000) (pos 15) false)
update-Capped_example =
    update-Capped thousandths thousandths-IsCast twenty (pos 0) (pos 7000) (pos 15) false range
      twenty-IsCapped

abbrev pub config : Builder thousandths.Double
config = record {
  initial_limit = pos 20;
  min_limit = pos 20;
  max_concurrency = pos 200;
  queue_size_fn = λ n. pos 4;
  rtt_tolerance = pos 1500;
  smoothing = pos 200;
  long_window = pos 600;
}

pub config-IsSound : IsSound config
config-IsSound = record {
  range = range;
  initial_int = ground arith;
  ge_min = omega arith;
  le_max = omega arith;
}

abbrev start : AbstractLimit ℤ
start = record { limit = pos 20; listeners = []; world = pos 0 }

starts : get_limit start ≡ pos 20
unfolding get_limit
starts = refl

get_limit-after_samples_example :
    let n = get_limit (Published.after_samples thousandths config start (sample ∷ [])).1 in
    (pos 20 ≤ℤ n) × (n ≤ℤ pos 200)
get_limit-after_samples_example =
    get_limit-after_samples thousandths thousandths-IsCast config start (sample ∷ []) config-IsSound
      starts

abbrev calls : List (Setting thousandths)
calls = min_limit (pos 5) ∷ queue_size_fn none ∷ min_limit (pos 3) ∷ []
