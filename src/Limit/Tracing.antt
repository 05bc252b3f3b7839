-- ===== src/Limit/Tracing.antt =====
-- `TracingLimitDecorator`: one log line for each sample, which is then passed on.
use limen.Base.{◌≡◌, refl, sym, ◌∙◌, Bool, if◌then◌else◌, List, [], ◌∷◌, ◌++◌, map, ℤ, String}
use mathlib.Core.List.{append-nil, append_assoc}
use limen.Double.{DoubleOps}
use limen.Limit.Defs.{LimitOps}

-- One sample of a limit.
pub record Sample : Type 0 where
  pub start_time_ns : ℤ
  pub rtt_ns : ℤ
  pub inflight : ℤ
  pub did_drop : Bool

-- The fields of the line, in its order; the stream's formatting of numbers is not modelled.
pub record TraceLine (D : Type 0) : Type 0 where
  pub max_in_flight : ℤ
  pub min_rtt_ms : D
  pub dropped : String

-- The decorator with the lines that the sink has received, oldest first.
pub record Tracing (D L : Type 0) : Type 0 where
  pub delegate : L
  pub lines : List (TraceLine D)

module _ (d : DoubleOps) {L : Type 0} (limit : LimitOps L) where
  open d use {Double, of_int, div, decimal}

  unfoldable pub wrap : L → Tracing Double L
  wrap delegate = record { delegate = delegate; lines = [] }

  unfoldable pub trace_line : Sample → TraceLine Double
  trace_line s = record {
    max_in_flight = s.inflight;
    min_rtt_ms = div (of_int s.rtt_ns) (decimal 1000000 0);
    dropped = if s.did_drop then "true" else "false";
  }

  unfoldable pub tracing_get_limit : Tracing Double L → ℤ
  tracing_get_limit t = limit.get_limit t.delegate

  unfoldable pub tracing_on_sample : Tracing Double L → Sample → Tracing Double L
  tracing_on_sample t s = record {
    lines = t.lines ++ trace_line s ∷ [];
    delegate = limit.on_sample t.delegate s.start_time_ns s.rtt_ns s.inflight s.did_drop;
  }

  -- The callback goes to the delegate, whose own `NotifyOnChange` is an argument.
  unfoldable pub tracing_notify_on_change :
      {C : Type 0} → (L → C → L) → Tracing Double L → C → Tracing Double L
  tracing_notify_on_change notify t callback = record t { delegate = notify t.delegate callback }

  -- The decorator, and the bare delegate, over a sequence of samples.
  pub run_tracing : Tracing Double L → List Sample → Tracing Double L
  run_tracing t [] = t
  run_tracing t (s ∷ rest) = run_tracing (tracing_on_sample t s) rest

  pub run_limit : L → List Sample → L
  run_limit l [] = l
  run_limit l (s ∷ rest) =
      run_limit (limit.on_sample l s.start_time_ns s.rtt_ns s.inflight s.did_drop) rest

  -- The decorator is transparent: after any samples its delegate is where the bare limit would be, it
  -- reads the same limit, and the sink has received one line for each sample, in order.
  pub run_tracing-run_limit :
      (t : Tracing Double L) (samples : List Sample)
      → ((run_tracing t samples).delegate ≡ run_limit t.delegate samples)
        × (tracing_get_limit (run_tracing t samples)
            ≡ limit.get_limit (run_limit t.delegate samples))
        × ((run_tracing t samples).lines ≡ t.lines ++ map trace_line samples)
  unfolding run_tracing run_limit tracing_on_sample tracing_get_limit
  run_tracing-run_limit t [] = (refl, refl, sym (append-nil t.lines))
  run_tracing-run_limit t (s ∷ rest) =
      let (same, read, lines) = run_tracing-run_limit (tracing_on_sample t s) rest in
      (same, read, lines ∙ append_assoc t.lines (trace_line s ∷ []) (map trace_line rest))
