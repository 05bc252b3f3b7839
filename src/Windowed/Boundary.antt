-- ===== src/Windowed/Boundary.antt =====
-- How far apart the boundaries of `WindowedLimit` are, under any interleaving of threads.
use limen.Base.{
  ◌≡◌, refl, Bool, List, [], ◌∷◌, ℤ, pos, ◌+ℤ◌, ◌≤ℤ◌, ◌<ℤ◌, leb_ℤ, arith, if_elim, leb_ℤ→gt,
  int_laws, not, IsInt64, add64, All, int64_max, int64-eq_self, negsuc,
}
use limen.Limit.Defs.{LimitOps}
use limen.Limit.Tracing.{Sample}
use limen.Window.Defs.{WindowOps}
use limen.Windowed.Defs.{
  Windowed, fold_sample, adaptive_ns, close_window, try_boundary, end_time_ns, get_slot,
}

-- One atomic piece of some thread's `OnSample`: the fold into the slot that the thread loaded, which
-- may be stale by now, or the part under the lock.
pub data Event : Type 0 where
  folds : Bool → Sample → Event
  tries : Bool → Sample → Event

due_later : (due end lo d : ℤ) → due ≤ℤ end +ℤ lo → lo ≤ℤ d → due ≤ℤ end +ℤ d
due_later due end lo d h k = omega int_laws

due_next : (due next end lo : ℤ) → due ≤ℤ next → next <ℤ end → pos 0 ≤ℤ lo → due ≤ℤ end +ℤ lo
due_next due next end lo h k p = omega int_laws

-- The sample's end is an int64_t, and so is the end of the longest window that begins there.
abbrev pub Fits : ℤ → Sample → Type 0
Fits hi s = IsInt64 (s.start_time_ns +ℤ s.rtt_ns) × (s.start_time_ns +ℤ s.rtt_ns +ℤ hi ≤ℤ int64_max)

abbrev pub EventFits : ℤ → Event → Type 0
EventFits hi (folds idx s) = Unit
EventFits hi (tries locked s) = Fits hi s

sum-IsInt64 :
    (e d hi : ℤ) → IsInt64 e → pos 0 ≤ℤ d → d ≤ℤ hi → e +ℤ hi ≤ℤ int64_max → IsInt64 (e +ℤ d)
unfolding ◌+ℤ◌
sum-IsInt64 (pos n) d hi f p h k = ground arith
sum-IsInt64 (negsuc n) d hi f p h k = ground arith

-- The next due time does not overflow.
add64-end_time_ns :
    (s : Sample) (d hi : ℤ)
    → Fits hi s
    → pos 0 ≤ℤ d
    → d ≤ℤ hi
    → add64 (end_time_ns s) d ≡ end_time_ns s +ℤ d
unfolding add64
add64-end_time_ns s d hi (e, k) p h =
    let end = s.start_time_ns +ℤ s.rtt_ns in
    rw (int64-eq_self end e) (int64-eq_self (end +ℤ d) (sum-IsInt64 end d hi e p h k))

le_refl_ℤ : (a : ℤ) → a ≤ℤ a
le_refl_ℤ a = omega arith

module _ {W L : Type 0} (window : WindowOps W) (limit : LimitOps L) where
  unfoldable pub step : Windowed W L → Event → Windowed W L
  step t (folds idx s) = fold_sample window limit idx t s
  step t (tries locked s) = try_boundary window limit locked t s

  -- Events, oldest first.
  unfoldable pub run : Windowed W L → List Event → Windowed W L
  run t [] = t
  run t (e ∷ events) = run (step t e) events

  adaptive_ns_bounds :
      (t : Windowed W L) (candidate : ℤ)
      → t.min_window_time_ns ≤ℤ t.max_window_time_ns
      → (t.min_window_time_ns ≤ℤ adaptive_ns window limit t candidate)
        × (adaptive_ns window limit t candidate ≤ℤ t.max_window_time_ns)
  unfolding adaptive_ns
  adaptive_ns_bounds t candidate h = ground arith

  -- No boundary falls due before `due`.
  record IsDueFrom (due lo hi : ℤ) (t : Windowed W L) : Type 0 where
    same_min : t.min_window_time_ns ≡ lo
    same_max : t.max_window_time_ns ≡ hi
    later : due ≤ℤ t.next_update_time_ns

  close_window-IsDueFrom :
      (t : Windowed W L) (s : Sample) (due lo hi : ℤ)
      → pos 0 ≤ℤ lo
      → lo ≤ℤ hi
      → t.min_window_time_ns ≡ lo
      → t.max_window_time_ns ≡ hi
      → Fits hi s
      → due ≤ℤ end_time_ns s +ℤ lo
      → IsDueFrom due lo hi (close_window window limit t s)
  unfolding close_window
  close_window-IsDueFrom t s due lo hi p h a b f k =
      let w = get_slot t.slots t.second_active in
      let (low, high) = adaptive_ns_bounds t (window.candidate_rtt_ns w) (rw (a, b) h) in
      let d = adaptive_ns window limit t (window.candidate_rtt_ns w) in
      let from : lo ≤ℤ d = rw (← a) low in
      record {
        same_min = a;
        same_max = b;
        later =
            rw (add64-end_time_ns s d hi f (omega arith) (rw (← b) high))
              (due_later due (end_time_ns s) lo d k from);
      }

  step-IsDueFrom :
      (t : Windowed W L) (e : Event) (due lo hi : ℤ)
      → pos 0 ≤ℤ lo
      → lo ≤ℤ hi
      → EventFits hi e
      → IsDueFrom due lo hi t
      → IsDueFrom due lo hi (step t e)
  unfolding step fold_sample try_boundary
  step-IsDueFrom t (folds idx s) due lo hi p h f k = record {
    same_min = k.same_min;
    same_max = k.same_max;
    later = k.later;
  }
  step-IsDueFrom t (tries locked s) due lo hi p h f k =
      if_elim (IsDueFrom due lo hi) (not locked) (λ _. k)
        λ _.
          if_elim (IsDueFrom due lo hi) (leb_ℤ (end_time_ns s) t.next_update_time_ns) (λ _. k)
            λ late. close_window-IsDueFrom t s due lo hi p h k.same_min k.same_max f (
              due_next due t.next_update_time_ns (end_time_ns s) lo k.later
                (leb_ℤ→gt (end_time_ns s) t.next_update_time_ns late) p)

  run-IsDueFrom :
      (t : Windowed W L) (events : List Event) (due lo hi : ℤ)
      → pos 0 ≤ℤ lo
      → lo ≤ℤ hi
      → All (EventFits hi) events
      → IsDueFrom due lo hi t
      → IsDueFrom due lo hi (run t events)
  unfolding run
  run-IsDueFrom t [] due lo hi p h fs k = k
  run-IsDueFrom t (e ∷ events) due lo hi p h fs k =
      run-IsDueFrom (step t e) events due lo hi p h fs.1 (step-IsDueFrom t e due lo hi p h fs.0 k)

  -- After a boundary, whatever folds and boundary attempts of other threads come between, an attempt
  -- whose sample ends no later than the shortest window after the sample that closed the boundary
  -- changes nothing: the delegate is driven, and the slots are flipped, at most once in that time. The
  -- shortest window is not negative and not above the longest. For the sample that closed the
  -- boundary and those of the attempts in between, the sum of start and round-trip time is an int64_t,
  -- and it stays one when the longest window is added.
  pub try_boundary-spaced :
      (t : Windowed W L) (s s' : Sample) (events : List Event) (locked : Bool)
      → pos 0 ≤ℤ t.min_window_time_ns
      → t.min_window_time_ns ≤ℤ t.max_window_time_ns
      → Fits t.max_window_time_ns s
      → All (EventFits t.max_window_time_ns) events
      → end_time_ns s' ≤ℤ end_time_ns s +ℤ t.min_window_time_ns
      → let u = run (close_window window limit t s) events in
        try_boundary window limit locked u s' ≡ u
  unfolding try_boundary
  try_boundary-spaced t s s' events locked p h f fs k =
      let u = run (close_window window limit t s) events in
      let due =
        run-IsDueFrom (close_window window limit t s) events (end_time_ns s +ℤ t.min_window_time_ns)
          t.min_window_time_ns t.max_window_time_ns p h fs
          (close_window-IsDueFrom t s _ _ _ p h refl refl f
            (le_refl_ℤ (end_time_ns s +ℤ t.min_window_time_ns))) in
      if_elim (λ v. v ≡ u) (not locked) (λ _. refl)
        λ _.
          if_elim (λ v. v ≡ u) (leb_ℤ (end_time_ns s') u.next_update_time_ns) (λ _. refl)
            λ late.
              absurd
                (omega (arith, due.later, leb_ℤ→gt (end_time_ns s') u.next_update_time_ns late))
