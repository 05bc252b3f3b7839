-- ===== src/Windowed/Drive.antt =====
-- What samples keep of the delegate, the windows keep too.
use limen.Base.{Bool, not, ℤ, leb_ℤ, ltb_ℤ, if_elim}
use limen.Limit.Defs.{LimitOps}
use limen.Limit.Tracing.{Sample}
use limen.Window.Defs.{WindowOps}
use limen.Windowed.Defs.{
  Windowed, end_time_ns, get_slot, fold_sample, window_ready, close_window, try_boundary, on_sample,
}

module _ {W L : Type 0} (window : WindowOps W) (limit : LimitOps L) (P : L → Type 0)
    (keep : (l : L) (start rtt inflight : ℤ) (did_drop : Bool)
      → P l
      → P (limit.on_sample l start rtt inflight did_drop)) where
  close_window-keeps :
      (t : Windowed W L) (s : Sample) → P t.delegate → P (close_window window limit t s).delegate
  unfolding close_window
  close_window-keeps t s h =
      if_elim P (window_ready window limit t (get_slot t.slots t.second_active))
        (λ ready. keep t.delegate _ _ _ _ h) (λ early. h)

  try_boundary-keeps :
      (locked : Bool) (t : Windowed W L) (s : Sample)
      → P t.delegate
      → P (try_boundary window limit locked t s).delegate
  unfolding try_boundary
  try_boundary-keeps locked t s h =
      if_elim {A = Windowed W L} (λ u. P u.delegate) (not locked) (λ busy. h)
        (λ free.
          if_elim {A = Windowed W L} (λ u. P u.delegate)
            (leb_ℤ (end_time_ns s) t.next_update_time_ns) (λ early. h)
            (λ due. close_window-keeps t s h))

  -- A predicate on the delegate that its samples keep holds after a sample of the windowed limit.
  pub on_sample-keeps :
      (locked : Bool) (t : Windowed W L) (s : Sample)
      → P t.delegate
      → P (on_sample window limit locked t s).delegate
  unfolding on_sample fold_sample
  on_sample-keeps locked t s h =
      if_elim {A = Windowed W L} (λ u. P u.delegate) (ltb_ℤ s.rtt_ns t.min_rtt_threshold_ns)
        (λ noise. h)
        (λ real.
          if_elim {A = Windowed W L} (λ u. P u.delegate)
            (leb_ℤ (end_time_ns s) t.next_update_time_ns) (λ early. h)
            (λ due. try_boundary-keeps locked _ s h))
