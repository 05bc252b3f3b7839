-- ===== src/Window/AverageLaws.antt =====
-- The average window against a plain description of its entries.
use limen.Base.{
  ℕ, suc, ◌+◌, ◌*◌, ◌/◌, ◌^◌, ◌≤◌, ◌<◌, ◌≡◌, refl, Bool, true, List, [], ◌∷◌, ℤ, pos, ◌≤ℤ◌, ltb_ℤ,
  pos_part, neg_part, int32, int64, add32, add32-int32, int64-eq_self, int32-eq_self, length,
  if◌then◌else◌, arith, All, add64_comm, add64-int64_nonneg, ◌∙◌, Bool-cases, inl, ltb_ℤ→lt, inr,
  ltb_ℤ→ge,
}
use native.Mathlib.Nat.{mul-le-mul_right}
use limen.Window.Defs.{
  Entry, store_min, store_max, after_entries, least_rtt, most_inflight, any_drop,
}
use limen.Window.Average.{
  AverageWindow, add_sample, div_trunc, tracked_rtt_ns, reset, average_window,
}

pub store_min_comm : (m a b : ℤ) → store_min (store_min m a) b ≡ store_min (store_min m b) a
unfolding store_min
store_min_comm m a b = ground arith

pub store_max_comm : (m a b : ℤ) → store_max (store_max m a) b ≡ store_max (store_max m b) a
unfolding store_max
store_max_comm m a b = ground arith

or_comm :
    (o a b : Bool)
    → (if b then true else if a then true else o) ≡ (if a then true else if b then true else o)
or_comm o a b = ground arith

-- Two samples may be added in either order: the window does not depend on the interleaving of the
-- threads that add to it, wrap-around included.
pub add_sample_comm :
    (w : AverageWindow) (e f : Entry)
    → add_sample (add_sample w e) f ≡ add_sample (add_sample w f) e
unfolding add_sample
add_sample_comm w e f = λ i. record {
  sample_count = add32 (add32 w.sample_count (pos 1)) (pos 1);
  sum_rtt_ns = add64_comm w.sum_rtt_ns e.rtt_ns f.rtt_ns i;
  min_rtt_ns = store_min_comm w.min_rtt_ns e.rtt_ns f.rtt_ns i;
  max_inflight = store_max_comm w.max_inflight e.inflight f.inflight i;
  did_drop = or_comm w.did_drop e.did_drop f.did_drop i;
}

-- The sum of the round-trip times, where none is negative.
abbrev pub total_rtt : List Entry → ℕ
total_rtt [] = 0
total_rtt (e ∷ past) = pos_part e.rtt_ns + total_rtt past

abbrev pub IsNonneg : Entry → Type 0
IsNonneg e = neg_part e.rtt_ns ≡ 0

-- The window's fields after entries none of which is negative, as wrapping counters.
record IsAggregate (entries : List Entry) (w : AverageWindow) : Type 0 where
  counts : w.sample_count ≡ int32 (pos (length entries))
  sums : w.sum_rtt_ns ≡ int64 (pos (total_rtt entries))
  least : w.min_rtt_ns ≡ least_rtt entries
  most : w.max_inflight ≡ most_inflight entries
  drops : w.did_drop ≡ any_drop entries

add_sample-IsAggregate :
    (entries : List Entry) (w : AverageWindow) (e : Entry)
    → IsNonneg e
    → IsAggregate entries w
    → IsAggregate (e ∷ entries) (add_sample w e)
unfolding add_sample store_min store_max
add_sample-IsAggregate entries w e n k = record {
  counts = rw k.counts (add32-int32 (length entries));
  sums = rw k.sums (add64-int64_nonneg (total_rtt entries) e.rtt_ns n);
  least = rw k.least;
  most = rw k.most;
  drops = ground (arith, k.drops);
}

after_entries-IsAggregate :
    (w : AverageWindow) (entries : List Entry)
    → All IsNonneg entries
    → IsAggregate entries (after_entries average_window (reset w) entries)
unfolding after_entries reset int32 int64
after_entries-IsAggregate w [] n = record {
  counts = refl;
  sums = refl;
  least = refl;
  most = refl;
  drops = refl;
}
after_entries-IsAggregate w (e ∷ past) n =
    add_sample-IsAggregate past _ e n.0 (after_entries-IsAggregate w past n.1)

less_part : (r l : ℤ) → ltb_ℤ r l ≡ true → neg_part r ≡ 0 → pos_part r ≤ pos_part l
less_part r l less h = omega (arith, ltb_ℤ→lt r l less)

least-step :
    (r l : ℤ) (k t : ℕ)
    → neg_part r ≡ 0
    → neg_part l ≡ 0
    → pos_part l * k ≤ t
    → let m = (if ltb_ℤ r l then r else l) in
      (neg_part m ≡ 0) × (pos_part m * suc k ≤ pos_part r + t)
least-step r l k t hr hl h = elim (Bool-cases (ltb_ℤ r l)) [
  | inl less ↦ rw less (hr, omega (arith, mul-le-mul_right k (less_part r l less hr)))
  | inr more ↦ rw more (hl, omega (arith, ltb_ℤ→ge r l more))
]

least_rtt-mul-le :
    (entries : List Entry)
    → All IsNonneg entries
    → (neg_part (least_rtt entries) ≡ 0)
      × (pos_part (least_rtt entries) * length entries ≤ total_rtt entries)
least_rtt-mul-le [] n = omega arith
least_rtt-mul-le (e ∷ past) n =
    let (sign, small) = least_rtt-mul-le past n.1 in
    least-step e.rtt_ns (least_rtt past) (length past) (total_rtt past) n.0 sign small

tracked_rtt_ns-mean :
    (v : AverageWindow) (n t : ℕ)
    → v.sample_count ≡ pos (suc n)
    → v.sum_rtt_ns ≡ pos t
    → tracked_rtt_ns v ≡ pos (t / suc n)
unfolding tracked_rtt_ns div_trunc
tracked_rtt_ns-mean v n t c s = rw (c, s) (ground arith)

least-le-mean : (l n t : ℕ) → l * suc n ≤ t → l ≤ t / suc n
least-le-mean l n t h = grind arith

-- What `WindowedLimit` reads from a window reset and then given entries of which none is negative,
-- at least one, fewer than 2^31, and with a sum below 2^63: the number of entries, the whole part of
-- the mean round-trip time, the least one, which the mean is not below, the largest in-flight count,
-- and whether any entry was a drop.
pub after_entries-summary :
    (w : AverageWindow) (e : Entry) (past : List Entry)
    → All IsNonneg (e ∷ past)
    → length (e ∷ past) < 2 ^ 31
    → total_rtt (e ∷ past) < 2 ^ 63
    → let v = after_entries average_window (reset w) (e ∷ past) in
      (average_window.sample_count v ≡ pos (length (e ∷ past)))
      × (tracked_rtt_ns v ≡ pos (total_rtt (e ∷ past) / length (e ∷ past)))
      × (average_window.candidate_rtt_ns v ≡ least_rtt (e ∷ past))
      × (least_rtt (e ∷ past) ≤ℤ tracked_rtt_ns v)
      × (average_window.max_inflight v ≡ most_inflight (e ∷ past))
      × (average_window.did_drop v ≡ any_drop (e ∷ past))
after_entries-summary w e past n few small =
    let v = after_entries average_window (reset w) (e ∷ past) in
    let k = after_entries-IsAggregate w (e ∷ past) n in
    let count = k.counts ∙ int32-eq_self (pos (length (e ∷ past))) (few, omega arith) in
    let sum = k.sums ∙ int64-eq_self (pos (total_rtt (e ∷ past))) (small, omega arith) in
    let mean = tracked_rtt_ns-mean v (length past) (total_rtt (e ∷ past)) count sum in
    let (sign, least) = least_rtt-mul-le (e ∷ past) n in
    (
      count,
      mean,
      k.least,
      rw mean (omega (arith, sign, least-le-mean _ (length past) (total_rtt (e ∷ past)) least)),
      k.most,
      k.drops,
    )
