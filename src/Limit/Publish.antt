-- ===== src/Limit/Publish.antt =====
-- Publication of a new limit: who is told, and that what listens never falls behind.
use limen.Base.{◌≡◌, refl, Bool, List, [], ◌∷◌, ◌++◌, ℤ, eqb_ℤ, eqb_ℤ→eq, if◌then◌else◌, arith, All}
use limen.Limit.Defs.{
  AbstractLimit, get_limit, notify, set_limit_locked, set_limit, notify_on_change, Update,
  on_sample, fixed_update, fixed_on_sample,
}

module _ {W : Type 0} where
  -- Every callback runs once, in the order of registration.
  notify-append :
      (xs ys : List (ℤ → W → W)) (n : ℤ) (w : W)
      → notify (xs ++ ys) n w ≡ notify ys n (notify xs n w)
  unfolding notify
  notify-append [] ys n w = refl
  notify-append (x ∷ xs) ys n w = notify-append xs ys n (x n w)

  pub get_limit-set_limit_locked :
      (a : AbstractLimit W) (n : ℤ) → get_limit (set_limit_locked a n) ≡ n
  unfolding get_limit set_limit_locked
  get_limit-set_limit_locked a n = ground (arith, eqb_ℤ→eq n a.limit)

  -- A callback registered last is told a new limit after all others, and exactly when the limit
  -- changes; the limit that is read afterwards is the new one in either case.
  pub set_limit-notify_on_change :
      (a : AbstractLimit W) (callback : ℤ → W → W) (n : ℤ)
      → let b = set_limit (notify_on_change a callback) n in
        (get_limit b ≡ n)
        × (b.world ≡ (
            if eqb_ℤ n (get_limit a) then a.world else callback n (notify a.listeners n a.world)))
  unfolding set_limit notify_on_change get_limit set_limit_locked notify
  set_limit-notify_on_change a callback n =
      ground (arith, eqb_ℤ→eq n a.limit, notify-append a.listeners (callback ∷ []) n a.world)

  -- A sample leaves a fixed or settable limit, its callbacks and their world as they were.
  pub fixed_on_sample_lem :
      (a : AbstractLimit W) (start rtt inflight : ℤ) (did_drop : Bool)
      → fixed_on_sample a start rtt inflight did_drop ≡ a
  unfolding fixed_on_sample on_sample fixed_update set_limit_locked get_limit
  fixed_on_sample_lem a start rtt inflight did_drop = ground arith

-- A view of the world that each callback sets to a function of the limit.
module _ {W V : Type 0} (view : W → V) (mirror : ℤ → V) where
  abbrev pub Keeps : (ℤ → W → W) → Type 0
  Keeps callback = (n m : ℤ) (w : W) → view w ≡ mirror m → view (callback n w) ≡ mirror n

  notify-mirror :
      (callback : ℤ → W → W) (rest : List (ℤ → W → W)) (n m : ℤ) (w : W)
      → Keeps callback
      → All Keeps rest
      → view w ≡ mirror m
      → view (notify (callback ∷ rest) n w) ≡ mirror n
  unfolding notify
  notify-mirror callback [] n m w k ks e = k n m w e
  notify-mirror callback (next ∷ rest) n m w k ks e =
      notify-mirror next rest n n (callback n w) ks.0 ks.1 (k n m w e)

  set_limit-mirror :
      (a : AbstractLimit W) (callback : ℤ → W → W) (rest : List (ℤ → W → W)) (n : ℤ)
      → a.listeners ≡ callback ∷ rest
      → Keeps callback
      → All Keeps rest
      → view a.world ≡ mirror a.limit
      → view (set_limit_locked a n).world ≡ mirror (set_limit_locked a n).limit
  unfolding set_limit_locked
  set_limit-mirror a callback rest n e k ks v =
      ground (arith, notify-mirror callback rest n a.limit a.world k ks v)

  -- If at least one callback is registered and each sets the view by the limit it is told, the view
  -- stays in step with the limit through any sample of any algorithm.
  pub on_sample-mirror :
      {S : Type 0} (update : Update S) (s : S) (a : AbstractLimit W) (callback : ℤ → W → W)
      (rest : List (ℤ → W → W)) (start rtt inflight : ℤ) (did_drop : Bool)
      → a.listeners ≡ callback ∷ rest
      → Keeps callback
      → All Keeps rest
      → view a.world ≡ mirror (get_limit a)
      → let b = (on_sample update (s, a) start rtt inflight did_drop).1 in
        view b.world ≡ mirror (get_limit b)
  unfolding on_sample get_limit
  on_sample-mirror update s a callback rest start rtt inflight did_drop e k ks v =
      set_limit-mirror a callback rest _ e k ks v
