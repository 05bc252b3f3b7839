-- ===== src/Window/Defs.antt =====
-- `SampleWindow` as an interface, and the aggregates that both windows keep. Each field is an atomic;
-- the compare-and-swap loops on the minimum and the maximum end with the value stored here.
use limen.Base.{Bool, false, ◌||◌, List, [], ◌∷◌, ℤ, pos, ltb_ℤ, int64_max, if◌then◌else◌, ◌≡◌}

-- The arguments of `AddSample`.
pub record Entry : Type 0 where
  pub rtt_ns : ℤ
  pub inflight : ℤ
  pub did_drop : Bool

pub record WindowOps (W : Type 0) : Type 0 where
  pub add_sample : W → Entry → W
  pub candidate_rtt_ns : W → ℤ
  pub tracked_rtt_ns : W → ℤ
  pub max_inflight : W → ℤ
  pub sample_count : W → ℤ
  pub did_drop : W → Bool
  pub reset : W → W

-- `while (rtt_ns < current_min && !cas(current_min, rtt_ns))`
unfoldable pub store_min : ℤ → ℤ → ℤ
store_min current_min rtt_ns = if ltb_ℤ rtt_ns current_min then rtt_ns else current_min

-- `while (inflight > current_max && !cas(current_max, inflight))`
unfoldable pub store_max : ℤ → ℤ → ℤ
store_max current_max inflight = if ltb_ℤ current_max inflight then inflight else current_max

-- A window after entries, newest first.
unfoldable pub after_entries : {W : Type 0} → WindowOps W → W → List Entry → W
after_entries ops w [] = w
after_entries ops w (e ∷ past) = ops.add_sample (after_entries ops w past) e

-- The independent description of the aggregates of entries.
abbrev pub least_rtt : List Entry → ℤ
least_rtt [] = int64_max
least_rtt (e ∷ past) = if ltb_ℤ e.rtt_ns (least_rtt past) then e.rtt_ns else least_rtt past

abbrev pub most_inflight : List Entry → ℤ
most_inflight [] = pos 0
most_inflight (e ∷ past) =
    if ltb_ℤ (most_inflight past) e.inflight then e.inflight else most_inflight past

abbrev pub any_drop : List Entry → Bool
any_drop [] = false
any_drop (e ∷ past) = e.did_drop || any_drop past

-- Windows that nobody can tell apart: they read the same, they stay alike when entries are added, and
-- `Reset` leads to what is like a fresh one, whatever it leaves behind inside.
pub record IsAlike {W : Type 0} (window : WindowOps W) (fresh : W) (Alike : W → W → Type 0)
    : Type 0 where
  pub starts : Alike fresh fresh
  pub adds :
      (v w : W) (e : Entry) → Alike v w → Alike (window.add_sample v e) (window.add_sample w e)
  pub resets : (v w : W) → Alike v w → Alike (window.reset v) fresh
  pub candidate : (v w : W) → Alike v w → window.candidate_rtt_ns v ≡ window.candidate_rtt_ns w
  pub tracked : (v w : W) → Alike v w → window.tracked_rtt_ns v ≡ window.tracked_rtt_ns w
  pub most : (v w : W) → Alike v w → window.max_inflight v ≡ window.max_inflight w
  pub count : (v w : W) → Alike v w → window.sample_count v ≡ window.sample_count w
  pub drop : (v w : W) → Alike v w → window.did_drop v ≡ window.did_drop w
