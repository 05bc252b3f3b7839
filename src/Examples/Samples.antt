-- ===== src/Examples/Samples.antt =====
-- Threads in `AddSample` of a percentile window.
use limen.Base.{◌≡◌, refl, false, [], ◌∷◌, ℤ, pos, ◌<ℤ◌, arith, int64_max, add32}
use limen.Double.{thousandths}
use limen.Window.Defs.{Entry, after_entries}
use limen.Window.Percentile.{PercentileWindow, percentile_window, store_at}
use limen.Window.Claims.{
  Pc, idle, claimed, Move, stores, load_min, lower_min, load_max, raise_max, pass, System, begins,
  moves, Reach, start, later,
}
use limen.Window.Interleaved.{Reach-sequential}

abbrev fresh : PercentileWindow ℤ
fresh = record {
  percentile = pos 900;
  max_samples = pos 2;
  rtts = pos 0 ∷ pos 0 ∷ [];
  sample_count = pos 0;
  min_rtt_ns = int64_max;
  max_inflight = pos 0;
  did_drop = false;
}

abbrev entry : Entry
entry = record { rtt_ns = pos 70; inflight = pos 3; did_drop = false }

-- The other thread is idle.
abbrev now : PercentileWindow ℤ → Pc → System ℤ
now w p = record { window = w; threads = p ∷ idle ∷ []; log = entry ∷ [] }

-- One move of the first thread.
goes :
    (w : PercentileWindow ℤ) (p : Pc) (w' : PercentileWindow ℤ) (q : Pc)
    → Reach fresh (now w p)
    → Move w p w' q
    → Reach fresh (now w' q)
goes w p w' q reached move = later reached (moves [] (idle ∷ []) p refl move)

abbrev counted : PercentileWindow ℤ
counted = record fresh { sample_count = add32 (pos 0) (pos 1) }

abbrev stored : PercentileWindow ℤ
stored = record counted { rtts = store_at fresh.rtts (pos 0) (pos 70) }

abbrev lowered : PercentileWindow ℤ
lowered = record stored { min_rtt_ns = pos 70 }

abbrev raised : PercentileWindow ℤ
raised = record lowered { max_inflight = pos 3 }

begun : Reach fresh (now counted (claimed (pos 0) entry))
begun = later (start 2) (begins [] (idle ∷ []) entry refl)

below_max : pos 70 <ℤ int64_max
below_max = omega arith

returned : Reach fresh (now raised idle)
returned =
    goes _ _ _ _
      (goes _ _ _ _
        (goes _ _ _ _
          (goes _ _ _ _ (goes _ _ _ _ (goes _ _ _ _ begun (stores (omega arith))) load_min)
            (lower_min below_max refl))
          load_max)
        (raise_max (omega arith) refl))
      (pass refl)

Reach-sequential_example : raised ≡ after_entries (percentile_window thousandths) fresh (entry ∷ [])
Reach-sequential_example =
    Reach-sequential thousandths fresh (now raised idle) refl (omega arith) returned (tt, (tt, tt))
