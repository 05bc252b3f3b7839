-- ===== src/Limit/Defs.antt =====
-- `Limit` as an interface and `AbstractLimit` as its base class.
use limen.Base.{Bool, List, [], ◌∷◌, ◌++◌, ℤ, eqb_ℤ, if◌then◌else◌}

-- The interface `Limit`, over the states `L` of an algorithm together with what its callbacks change.
pub record LimitOps (L : Type 0) : Type 0 where
  pub get_limit : L → ℤ
  -- start_time_ns, rtt_ns, inflight, did_drop
  pub on_sample : L → ℤ → ℤ → ℤ → Bool → L

-- `AbstractLimit`. A change callback acts on a world `W`, the state outside the limit; `mu_` makes
-- each operation one step.
pub record AbstractLimit (W : Type 0) : Type 0 where
  pub limit : ℤ
  pub listeners : List (ℤ → W → W)
  pub world : W

module _ {W : Type 0} where
  -- The constructor.
  unfoldable pub starting_at : ℤ → W → AbstractLimit W
  starting_at initial_limit w = record { limit = initial_limit; listeners = []; world = w }

  unfoldable pub get_limit : AbstractLimit W → ℤ
  get_limit a = a.limit

  -- The loop over `listeners_`.
  unfoldable pub notify : List (ℤ → W → W) → ℤ → W → W
  notify [] new_limit w = w
  notify (listener ∷ rest) new_limit w = notify rest new_limit (listener new_limit w)

  unfoldable pub set_limit_locked : AbstractLimit W → ℤ → AbstractLimit W
  set_limit_locked a new_limit =
      if eqb_ℤ new_limit a.limit
      then a
      else record a { limit = new_limit; world = notify a.listeners new_limit a.world }

  unfoldable pub set_limit : AbstractLimit W → ℤ → AbstractLimit W
  set_limit a new_limit = set_limit_locked a new_limit

  unfoldable pub notify_on_change : AbstractLimit W → (ℤ → W → W) → AbstractLimit W
  notify_on_change a callback = record a { listeners = a.listeners ++ callback ∷ [] }

-- The virtual `Update` of a subclass with state `S`: start_time_ns, rtt_ns, inflight, did_drop.
abbrev pub Update : Type 0 → Type 0
Update S = S → ℤ → ℤ → ℤ → Bool → S × ℤ

module _ {S W : Type 0} where
  unfoldable pub on_sample : Update S → S × AbstractLimit W → ℤ → ℤ → ℤ → Bool → S × AbstractLimit W
  on_sample update (s, a) start_time_ns rtt_ns inflight did_drop =
      let (s', new_limit) = update s start_time_ns rtt_ns inflight did_drop in
      (s', set_limit_locked a new_limit)

-- `FixedLimit` and `SettableLimit` answer every sample with the present limit, so their state is the
-- base class's.
module _ {W : Type 0} where
  unfoldable pub fixed_update : AbstractLimit W → Update (Unit {0})
  fixed_update a s start_time_ns rtt_ns inflight did_drop = (s, get_limit a)

  unfoldable pub fixed_on_sample : AbstractLimit W → ℤ → ℤ → ℤ → Bool → AbstractLimit W
  fixed_on_sample a start_time_ns rtt_ns inflight did_drop =
      (on_sample (fixed_update a) (tt, a) start_time_ns rtt_ns inflight did_drop).1

  -- The two classes as implementations of the interface.
  abbrev pub settable_limit : LimitOps (AbstractLimit W)
  settable_limit = record { get_limit = get_limit; on_sample = fixed_on_sample }
