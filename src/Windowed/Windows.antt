-- ===== src/Windowed/Windows.antt =====
-- `WindowedLimit` against one growing window: the two slots and the active index are a representation.
use limen.Base.{
  ◌≡◌, refl, Bool, not, ◌&&◌, List, [], ◌∷◌, ℤ, pos, double_ℤ, leb_ℤ, ltb_ℤ, eqb_ℤ, min_ℤ, max_ℤ,
  int64_max, if◌then◌else◌, arith, if_elim, true_and_false, if_both, ◌∙◌, ap, add64, int64,
}
use limen.Limit.Defs.{LimitOps}
use limen.Limit.Tracing.{Sample}
use limen.Window.Defs.{Entry, WindowOps, after_entries, IsAlike}
use limen.Windowed.Defs.{
  Windowed, Slots, get_slot, set_slot, entry_of, end_time_ns, fold_sample, adaptive_ns,
  window_ready, close_window, try_boundary, on_sample,
}
use limen.Windowed.Config.{Builder, init}

-- The abstract state: the entries since the last boundary, newest first.
pub record OneWindow (L : Type 0) : Type 0 where
  pub driven : L
  pub entries : List Entry
  pub due : ℤ

module _ {W L : Type 0} (window : WindowOps W) (limit : LimitOps L) (b : Builder W) where
  -- The window that a list of entries makes.
  abbrev pub window_of : List Entry → W
  window_of = after_entries window b.fresh_window

  abbrev pub next_due : ℤ → ℤ → ℤ
  next_due end candidate = add64 end (
      if eqb_ℤ candidate int64_max
      then b.min_window_time_ns
      else min_ℤ (max_ℤ (int64 (double_ℤ candidate)) b.min_window_time_ns) b.max_window_time_ns)

  -- At a boundary: the delegate sees the aggregates of all entries if they are enough, and the next
  -- window begins empty.
  abbrev pub one_close : OneWindow L → Sample → OneWindow L
  one_close a s =
      let w = window_of a.entries in
      record {
        entries = [];
        due = next_due (end_time_ns s) (window.candidate_rtt_ns w);
        driven =
            if not (eqb_ℤ (window.candidate_rtt_ns w) int64_max)
              && leb_ℤ b.window_size (window.sample_count w)
            then limit.on_sample a.driven s.start_time_ns (window.tracked_rtt_ns w)
                (window.max_inflight w) (window.did_drop w)
            else a.driven;
      }

  abbrev pub one_sample : Bool → OneWindow L → Sample → OneWindow L
  one_sample locked a s =
      let a' : OneWindow L = record a { entries = entry_of s ∷ a.entries } in
      if ltb_ℤ s.rtt_ns b.min_rtt_threshold_ns
      then a
      else if leb_ℤ (end_time_ns s) a.due
      then a'
      else if not locked
      then a'
      else one_close a' s

module _ {W L : Type 0} (window : WindowOps W) (limit : LimitOps L) (b : Builder W)
    (Alike : W → W → Type 0) where
  -- The active slot is like the window of the entries, and the other slot like a fresh one.
  pub record Refines (t : Windowed W L) (a : OneWindow L) : Type 0 where
    pub active : Alike (get_slot t.slots t.second_active) (window_of window limit b a.entries)
    pub spare : Alike (get_slot t.slots (not t.second_active)) b.fresh_window
    pub driven : t.delegate ≡ a.driven
    pub due : t.next_update_time_ns ≡ a.due
    pub same_min : t.min_window_time_ns ≡ b.min_window_time_ns
    pub same_max : t.max_window_time_ns ≡ b.max_window_time_ns
    pub same_size : t.window_size ≡ b.window_size
    pub same_threshold : t.min_rtt_threshold_ns ≡ b.min_rtt_threshold_ns

  get_slot-set_slot : (s : Slots W) (i : Bool) (w : W) → get_slot (set_slot s i w) i ≡ w
  unfolding get_slot set_slot
  get_slot-set_slot s i w = ground arith

  get_slot-set_slot_other :
      (s : Slots W) (i : Bool) (w : W) → get_slot (set_slot s i w) (not i) ≡ get_slot s (not i)
  unfolding get_slot set_slot
  get_slot-set_slot_other s i w = ground arith

  get_slot-set_slot_flip :
      (s : Slots W) (i : Bool) (w : W) → get_slot (set_slot s i w) (not (not i)) ≡ w
  unfolding get_slot set_slot
  get_slot-set_slot_flip s i w = ground arith

  module _ (laws : IsAlike window b.fresh_window Alike) where
    pub init-Refines :
        (delegate : L)
        → Refines (init b delegate) (record { driven = delegate; entries = []; due = pos 0 })
    unfolding init get_slot after_entries
    init-Refines delegate = record {
      active = laws.starts;
      spare = laws.starts;
      driven = refl;
      due = refl;
      same_min = refl;
      same_max = refl;
      same_size = refl;
      same_threshold = refl;
    }

    fold_sample-Refines :
        (t : Windowed W L) (a : OneWindow L) (s : Sample)
        → Refines t a
        → Refines
            (fold_sample window limit t.second_active t s)
            (record a { entries = entry_of s ∷ a.entries })
    unfolding fold_sample after_entries
    fold_sample-Refines t a s r = record {
      active =
          rw (get_slot-set_slot t.slots t.second_active _) (laws.adds _ _ (entry_of s) r.active);
      spare = rw (get_slot-set_slot_other t.slots t.second_active _) r.spare;
      driven = r.driven;
      due = r.due;
      same_min = r.same_min;
      same_max = r.same_max;
      same_size = r.same_size;
      same_threshold = r.same_threshold;
    }

    close_window-Refines :
        (t : Windowed W L) (a : OneWindow L) (s : Sample)
        → Refines t a
        → Refines (close_window window limit t s) (one_close window limit b a s)
    unfolding close_window adaptive_ns window_ready after_entries
    close_window-Refines t a s r =
        let candidate = laws.candidate _ _ r.active in
        record {
          active = rw (get_slot-set_slot_other t.slots t.second_active _) r.spare;
          spare = rw (get_slot-set_slot_flip t.slots t.second_active _) (laws.resets _ _ r.active);
          driven = rw (
            candidate,
            laws.tracked _ _ r.active,
            laws.most _ _ r.active,
            laws.count _ _ r.active,
            laws.drop _ _ r.active,
            r.driven,
            r.same_size,
          );
          due = rw (candidate, r.same_min, r.same_max);
          same_min = r.same_min;
          same_max = r.same_max;
          same_size = r.same_size;
          same_threshold = r.same_threshold;
        }

    -- One call of `OnSample`, the lock free or taken, does to the entries since the last boundary what
    -- one growing window does; the delegate is driven with the aggregates of exactly those entries.
    -- The window's `Reset` is assumed to lead to what cannot be told from the factory's window.
    pub on_sample-Refines :
        (locked : Bool) (t : Windowed W L) (a : OneWindow L) (s : Sample)
        → Refines t a
        → Refines (on_sample window limit locked t s) (one_sample window limit b locked a s)
    unfolding on_sample try_boundary
    on_sample-Refines locked t a s r =
        let folded = fold_sample window limit t.second_active t s in
        let a' : OneWindow L = record a { entries = entry_of s ∷ a.entries } in
        let r' = fold_sample-Refines t a s r in
        let first = ap (ltb_ℤ s.rtt_ns) r.same_threshold in
        let second = ap (leb_ℤ (end_time_ns s)) r'.due in
        if_both Refines _ _ first (λ _. r)
          λ _.
            if_both Refines _ _ second (λ _. r')
              λ late.
                if_both Refines (not locked) (not locked) refl (λ _. r')
                  λ _.
                    if_elim (λ t'. Refines t' (one_close window limit b a' s))
                      (leb_ℤ (end_time_ns s) folded.next_update_time_ns)
                      (λ early. absurd (true_and_false _ early (second ∙ late)))
                      (λ _. close_window-Refines folded a' s r')
