-- ===== src/Windowed/Config.antt =====
-- `WindowedLimit::Builder`: the setters and what `Build` accepts.
use limen.Base.{◌≡◌, ◌↔◌, false, ℤ, pos, leb_ℤ, ltb_ℤ, ◌≤ℤ◌, ◌<ℤ◌, if◌then◌else◌, arith}
use limen.Windowed.Defs.{Windowed}

pub data BuildError : Type 0 where
  min_window_not_positive max_window_not_positive min_exceeds_max : BuildError
  window_size_below_one rtt_threshold_negative : BuildError

pub data BuildResult (A : Type 0) : Type 0 where
  built : A → BuildResult A
  invalid_argument : BuildError → BuildResult A

-- The factory answers a fresh window.
pub record Builder (W : Type 0) : Type 0 where
  pub min_window_time_ns : ℤ
  pub max_window_time_ns : ℤ
  pub window_size : ℤ
  pub min_rtt_threshold_ns : ℤ
  pub fresh_window : W

-- The members' initial values, with the factory's window.
unfoldable pub default_builder : {W : Type 0} → W → Builder W
default_builder fresh = record {
  min_window_time_ns = pos 1000000000;
  max_window_time_ns = pos 1000000000;
  window_size = pos 10;
  min_rtt_threshold_ns = pos 100000;
  fresh_window = fresh;
}

module _ {W L : Type 0} where
  -- The constructor: both slots are the factory's windows.
  unfoldable pub init : Builder W → L → Windowed W L
  init b delegate = record {
    delegate = delegate;
    slots = record { first = b.fresh_window; second = b.fresh_window };
    second_active = false;
    next_update_time_ns = pos 0;
    min_window_time_ns = b.min_window_time_ns;
    max_window_time_ns = b.max_window_time_ns;
    window_size = b.window_size;
    min_rtt_threshold_ns = b.min_rtt_threshold_ns;
  }

  unfoldable pub build : Builder W → L → BuildResult (Windowed W L)
  build b delegate =
      if leb_ℤ b.min_window_time_ns (pos 0)
      then invalid_argument min_window_not_positive
      else if leb_ℤ b.max_window_time_ns (pos 0)
      then invalid_argument max_window_not_positive
      else if ltb_ℤ b.max_window_time_ns b.min_window_time_ns
      then invalid_argument min_exceeds_max
      else if ltb_ℤ b.window_size (pos 1)
      then invalid_argument window_size_below_one
      else if ltb_ℤ b.min_rtt_threshold_ns (pos 0)
      then invalid_argument rtt_threshold_negative
      else built (init b delegate)

  -- What the constructed limit's members satisfy.
  pub record IsConfigured (t : Windowed W L) : Type 0 where
    pub min_positive : pos 0 <ℤ t.min_window_time_ns
    pub min_le_max : t.min_window_time_ns ≤ℤ t.max_window_time_ns
    pub size_positive : pos 1 ≤ℤ t.window_size
    pub threshold_nonneg : pos 0 ≤ℤ t.min_rtt_threshold_ns

  -- `Build` accepts exactly the configurations with positive ordered window times, a window size of 1
  -- or more and a threshold that is not negative.
  pub build-IsConfigured :
      (b : Builder W) (delegate : L)
      → (build b delegate ≡ built (init b delegate)) ↔ IsConfigured (init b delegate)
  unfolding build init
  build-IsConfigured b delegate = (λ e. ground arith, λ k. ground arith)
