-- ===== src/Window/PercentileLaws.antt =====
-- The percentile window against a plain description of its entries.
use limen.Base.{
  ℕ, zero, suc, ◌+◌, ◌^◌, ◌≤◌, ◌<◌, ◌≡◌, refl, ap, false, List, [], ◌∷◌, ◌++◌, ℤ, pos, pos_part,
  ltb_ℤ, leb_ℤ, eqb_ℤ, min_ℤ, length, length-append, length-set, add32-pos, set, take, get_or,
  if◌then◌else◌, arith, Bool-cases, inl, inr, ltb_ℤ→lt, ◌-◌,
}
use mathlib.Core.Path.{subst}
use limen.Double.{DoubleOps}
use limen.Window.Defs.{Entry, after_entries}
use limen.Window.Ranks.{within_ranks, HasPredecessor, clamped-within_ranks, within_ranks-within}
use limen.Window.Percentile.{
  PercentileWindow, sort, store_at, add_sample, clamped_index, sort_buffer, tracked_rtt_ns, reset,
  percentile_window,
}
use limen.Window.Sorting.{at_most, at_least, sum_of-sort, length-sort, sort-IsSorted, get_or-rank}

take-set :
    (xs : List ℤ) (n : ℕ) (v : ℤ) → n < length xs → take (suc n) (set xs n v) ≡ take n xs ++ v ∷ []
take-set [] n v h = absurd (omega arith)
take-set (x ∷ xs) zero v h = refl
take-set (x ∷ xs) (suc n) v h = ap (◌∷◌ x) (take-set xs n v (omega arith))

-- A value appended to the part of the array that is in use.
take-recorded :
    (r xs : List ℤ) (n : ℕ) (v : ℤ)
    → length r ≡ n
    → n < length xs
    → take (length r) xs ≡ r
    → take (length (r ++ v ∷ [])) (set xs n v) ≡ r ++ v ∷ []
take-recorded r xs n v e h t =
    let grown : length (r ++ v ∷ []) ≡ suc n = omega (arith, length-append r (v ∷ [])) in
    rw (grown, take-set xs n v h, ← e, t)

-- The round-trip times that take part in the percentile, oldest first: those of the first `size`
-- entries of a history, newest first.
abbrev pub recorded : ℕ → List Entry → List ℤ
recorded size [] = []
recorded size (e ∷ past) =
    if ltb_ℤ (pos (length past)) (pos size)
    then recorded size past ++ e.rtt_ns ∷ []
    else recorded size past

pub length-recorded :
    (size : ℕ) (past : List Entry)
    → length (recorded size past)
      ≡ (if ltb_ℤ (pos (length past)) (pos size) then length past else size)
length-recorded size [] = ground arith
length-recorded size (e ∷ past) =
    ground (arith, length-recorded size past, length-append (recorded size past) (e.rtt_ns ∷ []))

module _ (d : DoubleOps) where
  open d use {Double, of_int, lround, mul}

  -- The percentile's product with the number of values, rounded.
  abbrev pub nearest : Double → ℕ → ℤ
  nearest percentile n = lround (mul (of_int (pos n)) percentile)

  record IsRecording (size : ℕ) (percentile : Double) (past : List Entry)
      (w : PercentileWindow Double) : Type 0 where
    same : w.percentile ≡ percentile
    room : length w.rtts ≡ size
    bound : w.max_samples ≡ pos size
    counts : w.sample_count ≡ pos (length past)
    held : take (length (recorded size past)) w.rtts ≡ recorded size past

  add_sample-IsRecording :
      (size : ℕ) (p : Double) (past : List Entry) (w : PercentileWindow Double) (e : Entry)
      → suc (length past) < 2 ^ 31
      → IsRecording size p past w
      → IsRecording size p (e ∷ past) (add_sample d w e)
  unfolding add_sample store_at
  add_sample-IsRecording size p past w e few k =
      elim (Bool-cases (ltb_ℤ (pos (length past)) (pos size))) [
        | inl open_slot ↦
            let n : length (recorded size past) ≡ length past =
              ground (arith, length-recorded size past) in
            record {
              same = k.same;
              room = ground (arith, k.room, k.counts, length-set w.rtts (length past) e.rtt_ns);
              bound = k.bound;
              counts = rw k.counts (add32-pos (length past) few);
              held =
                  rw (k.counts, k.bound, open_slot)
                    (take-recorded (recorded size past) w.rtts (length past) e.rtt_ns n
                      (omega (arith, k.room, ltb_ℤ→lt (pos (length past)) (pos size) open_slot))
                      k.held);
            }
        | inr full ↦ record {
          same = k.same;
          room = rw (k.counts, k.bound, full) k.room;
          bound = k.bound;
          counts = rw k.counts (add32-pos (length past) few);
          held = rw (k.counts, k.bound, full) k.held;
        }
      ]

  after_entries-IsRecording :
      (size : ℕ) (w : PercentileWindow Double) (past : List Entry)
      → length w.rtts ≡ size
      → w.max_samples ≡ pos size
      → length past < 2 ^ 31
      → IsRecording size w.percentile past (after_entries (percentile_window d) (reset d w) past)
  unfolding after_entries reset
  after_entries-IsRecording size w [] r b few = record {
    same = refl;
    room = r;
    bound = b;
    counts = refl;
    held = refl;
  }
  after_entries-IsRecording size w (e ∷ past) r b few =
      add_sample-IsRecording size w.percentile past _ e few
        (after_entries-IsRecording size w past r b (omega arith))

  clamped_index-within_ranks :
      (w : PercentileWindow Double) (n m : ℕ)
      → n ≡ suc m
      → HasPredecessor (nearest w.percentile n)
      → n < 2 ^ 31
      → suc (pos_part (clamped_index d w (pos n) (pos n))) ≡ within_ranks (nearest w.percentile n) n
  unfolding clamped_index
  clamped_index-within_ranks w zero m e h few = absurd (omega (arith, e))
  clamped_index-within_ranks w (suc n) m e h few =
      clamped-within_ranks (nearest w.percentile (suc n)) n h few

  -- A value of rank `k`, counted from one, among `xs`: at least k of them are at most it, and fewer than k
  -- are below it.
  pub record IsRank (xs : List ℤ) (k : ℕ) (v : ℤ) : Type 0 where
    pub above_zero : 0 < k
    pub within : k ≤ length xs
    pub low : k ≤ at_most v xs
    pub high : length xs < k + at_least v xs

  sort-IsRank :
      (xs : List ℤ) (k : ℕ) → k < length xs → IsRank xs (suc k) (get_or (sort xs) k (pos 0))
  sort-IsRank xs k h =
      let v = get_or (sort xs) k (pos 0) in
      let r = get_or-rank (sort xs) k (sort-IsSorted xs) (omega (arith, length-sort xs)) in
      record {
        above_zero = omega arith;
        within = h;
        low = omega (arith, r.0, sum_of-sort (λ x. if leb_ℤ x v then 1 else 0) xs);
        high = omega (arith, r.1, length-sort xs, sum_of-sort (λ x. if leb_ℤ v x then 1 else 0) xs);
      }

  tracked_rtt_ns-IsRank :
      (w : PercentileWindow Double) (xs : List ℤ) (m : ℕ)
      → min_ℤ w.sample_count w.max_samples ≡ pos (length xs)
      → eqb_ℤ w.sample_count (pos 0) ≡ false
      → take (length xs) w.rtts ≡ xs
      → length xs ≡ suc m
      → HasPredecessor (nearest w.percentile (length xs))
      → length xs < 2 ^ 31
      → IsRank xs (within_ranks (nearest w.percentile (length xs)) (length xs)) (tracked_rtt_ns d w)
  unfolding tracked_rtt_ns sort_buffer
  tracked_rtt_ns-IsRank w xs m u e t n h few =
      let r = nearest w.percentile (length xs) in
      let k = pos_part (clamped_index d w (pos (length xs)) (pos (length xs))) in
      let rank : suc k ≡ within_ranks r (length xs) =
        clamped_index-within_ranks w (length xs) m n h few in
      let inside : k < length xs = omega (arith, rank, within_ranks-within r (length xs) m n) in
      rw (e, u, t, length-sort xs, ← rank) (sort-IsRank xs k inside)

  usable-length :
      (size : ℕ) (e : Entry) (past : List Entry)
      → 0 < size
      → (min_ℤ (pos (length (e ∷ past))) (pos size) ≡ pos (length (recorded size (e ∷ past))))
        × (length (recorded size (e ∷ past)) ≡ suc (length (recorded size (e ∷ past)) - 1))
        × (length (recorded size (e ∷ past)) ≤ length (e ∷ past))
  usable-length size e past h = ground (arith, length-recorded size (e ∷ past))

  -- A window with room for at least one sample, reset and then given at least one entry and fewer than
  -- 2^31, reports the value, among the first entries that fit, whose rank from the smallest on, counted
  -- from one, is the rounded product of their number and the percentile: the least value if the
  -- product is below 1, the greatest if it is above their number. The rounded product is an int, and
  -- not the least one.
  pub after_entries-IsRank :
      (w : PercentileWindow Double) (e : Entry) (past : List Entry)
      → 0 < length w.rtts
      → w.max_samples ≡ pos (length w.rtts)
      → length (e ∷ past) < 2 ^ 31
      → HasPredecessor (nearest w.percentile (length (recorded (length w.rtts) (e ∷ past))))
      → let xs = recorded (length w.rtts) (e ∷ past) in
        IsRank xs
          (within_ranks (nearest w.percentile (length xs)) (length xs))
          (tracked_rtt_ns d (after_entries (percentile_window d) (reset d w) (e ∷ past)))
  after_entries-IsRank w e past room b few h =
      let v = after_entries (percentile_window d) (reset d w) (e ∷ past) in
      let xs = recorded (length w.rtts) (e ∷ past) in
      let k = after_entries-IsRecording (length w.rtts) w (e ∷ past) refl b few in
      let (usable, n, small) = usable-length (length w.rtts) e past room in
      subst (λ p. IsRank xs (within_ranks (nearest p (length xs)) (length xs)) (tracked_rtt_ns d v))
        k.same
        (tracked_rtt_ns-IsRank v xs _ (rw (k.counts, k.bound) usable) (rw k.counts (ground arith))
          k.held n (rw k.same h) (omega arith))
