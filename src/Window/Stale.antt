-- ===== src/Window/Stale.antt =====
-- What a percentile window that was reset keeps in its array cannot be read.
use limen.Base.{
  ℕ, zero, suc, ◌^◌, ◌≡◌, refl, sym, ◌∙◌, ap, replicate, ◌⊎◌, inl, inr, Bool, true, false, List, [],
  ◌∷◌, ℤ, pos, negsuc, add32, int32, ◌+ℤ◌, IsInt32, int32-IsInt32, min_ℤ, ltb_ℤ, leb, pos_part,
  length, take, get_or, set, length-set, if◌then◌else◌, Bool-cases, arith,
}
use limen.Double.{DoubleOps}
use limen.Window.Defs.{Entry, IsAlike}
use limen.Window.Percentile.{
  PercentileWindow, store_at, init, add_sample, clamped_index, sort_buffer, tracked_rtt_ns, reset,
  percentile_window,
}

abbrev drop_one : {A : Type 0} → List A → List A
drop_one [] = []
drop_one (x ∷ xs) = xs

take-set :
    {A : Type 0} (xs ys : List A) (k : ℕ) (v : A)
    → length xs ≡ length ys
    → take k xs ≡ take k ys
    → take (suc k) (set xs k v) ≡ take (suc k) (set ys k v)
take-set [] [] k v n e = refl
take-set [] (y ∷ ys) k v n e = absurd (omega (arith, n))
take-set (x ∷ xs) [] k v n e = absurd (omega (arith, n))
take-set (x ∷ xs) (y ∷ ys) zero v n e = refl
take-set (x ∷ xs) (y ∷ ys) (suc k) v n e =
    rw (ap (λ l. get_or l 0 x) e)
      (ap (λ l. y ∷ l) (take-set xs ys k v (omega (arith, n)) (ap drop_one e)))

-- How many entries can be read.
abbrev usable : ℤ → ℤ → ℕ
usable count max = pos_part (min_ℤ count max)

-- After one more entry none can be read, as the counter has wrapped, or one more, or as many as before.
next_usable :
    (c m : ℤ)
    → IsInt32 c
    → (usable (add32 c (pos 1)) m ≡ 0)
      ⊎ ((ltb_ℤ c m ≡ true)
          × (c ≡ pos (usable c m))
          × (usable (add32 c (pos 1)) m ≡ suc (usable c m)))
      ⊎ ((ltb_ℤ c m ≡ false) × (usable (add32 c (pos 1)) m ≡ usable c m))
unfolding add32 int32 ◌+ℤ◌
next_usable (negsuc n) m i = inl (ground arith)
next_usable (pos k) m i = elim (Bool-cases (leb (2 ^ 31) (suc k))) [
  | inl wraps ↦ inl (ground arith)
  | inr fits ↦ elim (Bool-cases (ltb_ℤ (pos k) m)) [
    | inl t ↦ inr (inl (t, ground arith, ground arith))
    | inr f ↦ inr (inr (f, ground arith))
  ]
]

store_at-take :
    (xs ys : List ℤ) (k : ℕ) (c v : ℤ)
    → c ≡ pos k
    → length xs ≡ length ys
    → take k xs ≡ take k ys
    → take (suc k) (store_at xs c v) ≡ take (suc k) (store_at ys c v)
unfolding store_at
store_at-take xs ys k c v at n e = rw at (take-set xs ys k v n e)

-- Two arrays that agree as far as they can be read still do after an entry is stored.
stored_next :
    (xs ys : List ℤ) (c m v : ℤ)
    → IsInt32 c
    → length xs ≡ length ys
    → take (usable c m) xs ≡ take (usable c m) ys
    → let k = usable (add32 c (pos 1)) m in
      take k (if ltb_ℤ c m then store_at xs c v else xs)
      ≡ take k (if ltb_ℤ c m then store_at ys c v else ys)
stored_next xs ys c m v i n e = elim (next_usable c m i) [
  | inl none_left ↦ rw none_left refl
  | inr (inl (t, at, more)) ↦ rw (more, t) (store_at-take xs ys (usable c m) c v at n e)
  | inr (inr (f, same)) ↦ rw (same, f) e
]

length-store_at : (xs : List ℤ) (c v : ℤ) → length (store_at xs c v) ≡ length xs
unfolding store_at
length-store_at xs (pos k) v = length-set xs k v
length-store_at xs (negsuc n) v = refl

length-stored :
    (xs : List ℤ) (b : Bool) (c v : ℤ) → length (if b then store_at xs c v else xs) ≡ length xs
length-stored xs true c v = length-store_at xs c v
length-stored xs false c v = refl

length-replicate : {A : Type 0} (n : ℕ) (a : A) → length (replicate n a) ≡ n
length-replicate zero a = refl
length-replicate (suc n) a = ap suc (length-replicate n a)

module _ (d : DoubleOps) (percentile : d.Double) (max_samples : ℤ) where
  -- A window of this configuration, whatever its array holds.
  record IsSized (w : PercentileWindow d.Double) : Type 0 where
    same_percentile : w.percentile ≡ percentile
    same_max : w.max_samples ≡ max_samples
    room : length w.rtts ≡ pos_part max_samples

  -- Two windows of this configuration with equal members, whose arrays agree as far as they can be read.
  pub record ReadsAlike (v w : PercentileWindow d.Double) : Type 0 where
    left : IsSized v
    right : IsSized w
    count : v.sample_count ≡ w.sample_count
    least : v.min_rtt_ns ≡ w.min_rtt_ns
    most : v.max_inflight ≡ w.max_inflight
    drop : v.did_drop ≡ w.did_drop
    is_int : IsInt32 w.sample_count
    stored :
        take (usable w.sample_count max_samples) v.rtts
        ≡ take (usable w.sample_count max_samples) w.rtts

  tracked-ReadsAlike :
      (v w : PercentileWindow d.Double) → ReadsAlike v w → tracked_rtt_ns d v ≡ tracked_rtt_ns d w
  unfolding tracked_rtt_ns sort_buffer clamped_index
  tracked-ReadsAlike v w h =
      rw
        (
          h.count, h.left.same_max, h.right.same_max, h.left.same_percentile,
          h.right.same_percentile, h.stored,
        )
        refl

  add_sample-IsSized :
      (w : PercentileWindow d.Double) (e : Entry) → IsSized w → IsSized (add_sample d w e)
  unfolding add_sample
  add_sample-IsSized w e h = record {
    same_percentile = h.same_percentile;
    same_max = h.same_max;
    room = length-stored w.rtts _ w.sample_count e.rtt_ns ∙ h.room;
  }

  add_sample-ReadsAlike :
      (v w : PercentileWindow d.Double) (e : Entry)
      → ReadsAlike v w
      → ReadsAlike (add_sample d v e) (add_sample d w e)
  unfolding add_sample add32
  add_sample-ReadsAlike v w e h = record {
    left = add_sample-IsSized v e h.left;
    right = add_sample-IsSized w e h.right;
    count = rw h.count refl;
    least = rw h.least refl;
    most = rw h.most refl;
    drop = rw h.drop refl;
    is_int = int32-IsInt32 _;
    stored =
        rw (h.count, h.left.same_max, h.right.same_max)
          (stored_next v.rtts w.rtts w.sample_count max_samples e.rtt_ns h.is_int
            (h.left.room ∙ sym h.right.room) h.stored);
  }

  reset-ReadsAlike :
      (w : PercentileWindow d.Double)
      → IsSized w
      → ReadsAlike (reset d w) (init d percentile max_samples)
  unfolding reset init
  reset-ReadsAlike w h = record {
    left = record { same_percentile = h.same_percentile; same_max = h.same_max; room = h.room };
    right = record { same_percentile = refl; same_max = refl; room = length-replicate _ _ };
    count = refl;
    least = refl;
    most = refl;
    drop = refl;
    is_int = omega arith;
    stored = rw (none_usable max_samples) refl;
  }
    where
      none_usable : (m : ℤ) → usable (pos 0) m ≡ 0
      none_usable m = ground arith

  fresh-ReadsAlike : ReadsAlike (init d percentile max_samples) (init d percentile max_samples)
  unfolding init
  fresh-ReadsAlike = record {
    left = fresh_sized;
    right = fresh_sized;
    count = refl;
    least = refl;
    most = refl;
    drop = refl;
    is_int = omega arith;
    stored = refl;
  }
    where
      fresh_sized : IsSized (init d percentile max_samples)
      fresh_sized = record { same_percentile = refl; same_max = refl; room = length-replicate _ _ }

  -- What the array keeps from before a reset is never read again.
  pub ReadsAlike-IsAlike : IsAlike (percentile_window d) (init d percentile max_samples) ReadsAlike
  ReadsAlike-IsAlike = record {
    starts = fresh-ReadsAlike;
    adds = add_sample-ReadsAlike;
    resets = λ v w h. reset-ReadsAlike v h.left;
    candidate = λ v w h. h.least;
    tracked = tracked-ReadsAlike;
    most = λ v w h. h.most;
    count = λ v w h. h.count;
    drop = λ v w h. h.drop;
  }
