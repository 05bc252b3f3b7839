-- ===== src/Windowed/Runs.antt =====
-- A windowed limit from its construction on, against one growing window.
use limen.Base.{◌≡◌, refl, ap, Bool, List, [], ◌∷◌, pos}
use limen.Limit.Defs.{LimitOps}
use limen.Limit.Tracing.{Sample}
use limen.Window.Defs.{WindowOps, IsAlike}
use limen.Window.Average.{AverageWindow, reset, average_window}
use limen.Window.Average
use limen.Windowed.Defs.{Windowed, on_sample}
use limen.Windowed.Config.{Builder, init}
use limen.Windowed.Windows.{OneWindow, one_sample, Refines, init-Refines, on_sample-Refines}

module _ {W L : Type 0} (window : WindowOps W) (limit : LimitOps L) (b : Builder W)
    (delegate : L) where
  -- Calls of `OnSample`, newest first, each with whether it gets the lock.
  abbrev pub after_samples : List (Bool × Sample) → Windowed W L
  after_samples [] = init b delegate
  after_samples ((locked, s) ∷ past) = on_sample window limit locked (after_samples past) s

  abbrev pub one_after : List (Bool × Sample) → OneWindow L
  one_after [] = record { driven = delegate; entries = []; due = pos 0 }
  one_after ((locked, s) ∷ past) = one_sample window limit b locked (one_after past) s

  -- After any samples, each with the lock free or taken, a windowed limit is where one growing window
  -- would be that begins anew at each boundary: the slot in use holds the entries since the last one,
  -- the delegate has been driven with the aggregates of exactly the entries in between, and the next
  -- boundary is due at the same time. The two slots, the active index and what `Reset` leaves in a
  -- slot cannot be told from outside: it is assumed of the window that `Reset` leads to what reads
  -- like the factory's window, now and after any entries.
  pub after_samples-Refines :
      (Alike : W → W → Type 0)
      → IsAlike window b.fresh_window Alike
      → (calls : List (Bool × Sample))
      → Refines window limit b Alike (after_samples calls) (one_after calls)
  after_samples-Refines Alike laws [] = init-Refines window limit b Alike laws delegate
  after_samples-Refines Alike laws ((locked, s) ∷ past) =
      on_sample-Refines window limit b Alike laws locked (after_samples past) (one_after past) s
        (after_samples-Refines Alike laws past)

-- Average windows that are alike are equal.
pub average-IsAlike : IsAlike average_window Average.init (λ v w. v ≡ w)
unfolding reset Average.init
average-IsAlike = record {
  starts = refl;
  adds = λ v w e h. ap (λ x. average_window.add_sample x e) h;
  resets = λ v w h. refl;
  candidate = λ v w h. ap (λ x. x.min_rtt_ns) h;
  tracked = λ v w h. ap average_window.tracked_rtt_ns h;
  most = λ v w h. ap (λ x. x.max_inflight) h;
  count = λ v w h. ap (λ x. x.sample_count) h;
  drop = λ v w h. ap (λ x. x.did_drop) h;
}
