-- ===== src/Windowed/Setup.antt =====
-- The setters of `WindowedLimit::Builder`, and `NotifyOnChange`.
use limen.Base.{ℤ, Option, none, some}
use limen.Windowed.Defs.{Windowed}
use limen.Windowed.Config.{Builder}

module _ {W : Type 0} where
  unfoldable pub with_min_window_time_ns : ℤ → Builder W → Builder W
  with_min_window_time_ns v b = record b { min_window_time_ns = v }

  unfoldable pub with_max_window_time_ns : ℤ → Builder W → Builder W
  with_max_window_time_ns v b = record b { max_window_time_ns = v }

  unfoldable pub with_window_size : ℤ → Builder W → Builder W
  with_window_size v b = record b { window_size = v }

  unfoldable pub with_min_rtt_threshold_ns : ℤ → Builder W → Builder W
  with_min_rtt_threshold_ns v b = record b { min_rtt_threshold_ns = v }

  -- What the factory makes; `Build` takes average windows where the factory is empty.
  unfoldable pub with_sample_window_factory : W → Option W → Builder W → Builder W
  with_sample_window_factory average none b = record b { fresh_window = average }
  with_sample_window_factory average (some window) b = record b { fresh_window = window }

-- The callback goes to the delegate, whose own `NotifyOnChange` is an argument.
unfoldable pub notify_on_change : {W L C : Type 0} → (L → C → L) → Windowed W L → C → Windowed W L
notify_on_change notify t callback = record t { delegate = notify t.delegate callback }
