-- ===== src/Windowed/Defs.antt =====
-- The state of `WindowedLimit` and `OnSample`, over any sample window and any delegate.
use limen.Base.{
  Bool, true, false, not, ◌&&◌, ℤ, add64, int64, double_ℤ, leb_ℤ, ltb_ℤ, eqb_ℤ, min_ℤ, max_ℤ,
  int64_max, if◌then◌else◌,
}
use limen.Limit.Defs.{LimitOps}
use limen.Limit.Tracing.{Sample}
use limen.Window.Defs.{Entry, WindowOps}

-- The two slots, `slots_[0]` and `slots_[1]`.
pub record Slots (W : Type 0) : Type 0 where
  pub first : W
  pub second : W

pub record Windowed (W L : Type 0) : Type 0 where
  pub delegate : L
  pub slots : Slots W
  -- `active_index_` is 1
  pub second_active : Bool
  pub next_update_time_ns : ℤ
  pub min_window_time_ns : ℤ
  pub max_window_time_ns : ℤ
  pub window_size : ℤ
  pub min_rtt_threshold_ns : ℤ

module _ {W : Type 0} where
  unfoldable pub get_slot : Slots W → Bool → W
  get_slot s false = s.first
  get_slot s true = s.second

  unfoldable pub set_slot : Slots W → Bool → W → Slots W
  set_slot s false w = record s { first = w }
  set_slot s true w = record s { second = w }

abbrev pub entry_of : Sample → Entry
entry_of s = record { rtt_ns = s.rtt_ns; inflight = s.inflight; did_drop = s.did_drop }

abbrev pub end_time_ns : Sample → ℤ
end_time_ns s = add64 s.start_time_ns s.rtt_ns

module _ {W L : Type 0} (window : WindowOps W) (limit : LimitOps L) where
  -- The call of `AddSample` on the slot whose index the thread has loaded.
  unfoldable pub fold_sample : Bool → Windowed W L → Sample → Windowed W L
  fold_sample idx t s = record t {
    slots = set_slot t.slots idx (window.add_sample (get_slot t.slots idx) (entry_of s));
  }

  -- How long the next window lasts: twice the candidate round-trip time, within the bounds.
  unfoldable pub adaptive_ns : Windowed W L → ℤ → ℤ
  adaptive_ns t candidate_rtt =
      if eqb_ℤ candidate_rtt int64_max
      then t.min_window_time_ns
      else min_ℤ (max_ℤ (int64 (double_ℤ candidate_rtt)) t.min_window_time_ns) t.max_window_time_ns

  -- The window has enough samples for the delegate.
  unfoldable pub window_ready : Windowed W L → W → Bool
  window_ready t completed =
      not (eqb_ℤ (window.candidate_rtt_ns completed) int64_max)
      && leb_ℤ t.window_size (window.sample_count completed)

  -- What is done under `boundary_mu_` behind the second test of the due time.
  unfoldable pub close_window : Windowed W L → Sample → Windowed W L
  close_window t s =
      let completed = get_slot t.slots t.second_active in
      record t {
        second_active = not t.second_active;
        next_update_time_ns =
            add64 (end_time_ns s) (adaptive_ns t (window.candidate_rtt_ns completed));
        delegate =
            if window_ready t completed
            then limit.on_sample t.delegate s.start_time_ns (window.tracked_rtt_ns completed)
                (window.max_inflight completed) (window.did_drop completed)
            else t.delegate;
        slots = set_slot t.slots t.second_active (window.reset completed);
      }

  -- From `boundary_mu_.try_lock()` on; the flag says whether it succeeds.
  unfoldable pub try_boundary : Bool → Windowed W L → Sample → Windowed W L
  try_boundary locked t s =
      if not locked
      then t
      else if leb_ℤ (end_time_ns s) t.next_update_time_ns
      then t
      else close_window t s

  -- `OnSample` as one thread runs it, when no other thread comes between its steps.
  unfoldable pub on_sample : Bool → Windowed W L → Sample → Windowed W L
  on_sample locked t s =
      let folded = fold_sample t.second_active t s in
      if ltb_ℤ s.rtt_ns t.min_rtt_threshold_ns
      then t
      else if leb_ℤ (end_time_ns s) folded.next_update_time_ns
      then folded
      else try_boundary locked folded s

  unfoldable pub get_limit : Windowed W L → ℤ
  get_limit t = limit.get_limit t.delegate

  -- `WindowedLimit` as a limit, for calls that do not overlap.
  abbrev pub windowed_limit : LimitOps (Windowed W L)
  windowed_limit = record {
    get_limit = get_limit;
    on_sample = λ t start rtt inflight did_drop.
        on_sample true t (record {
          start_time_ns = start;
          rtt_ns = rtt;
          inflight = inflight;
          did_drop = did_drop;
        });
  }
