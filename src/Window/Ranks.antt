-- ===== src/Window/Ranks.antt =====
-- Ranks of values counted from one, and the index that `PercentileSampleWindow` clamps.
use limen.Base.{
  ℕ, suc, ◌^◌, ◌≤◌, ◌<◌, ◌≡◌, ℤ, pos, negsuc, pos_part, neg_part, ltb_ℤ, min_ℤ, max_ℤ, ◌-ℤ◌, int32,
  sub32, if◌then◌else◌, arith,
}

-- A rank among `n` values, counted from one: the nearest one to `r`.
abbrev pub within_ranks : ℤ → ℕ → ℕ
within_ranks r n = if ltb_ℤ r (pos 1) then 1 else if ltb_ℤ (pos n) r then n else pos_part r

-- An int from which 1 can be taken away.
abbrev pub HasPredecessor : ℤ → Type 0
HasPredecessor r = (pos_part r < 2 ^ 31) × (neg_part r < 2 ^ 31)

-- The clamped index, counted from zero, is the rank before.
pub clamped-within_ranks :
    (r : ℤ) (n : ℕ)
    → HasPredecessor r
    → suc n < 2 ^ 31
    → suc (
        pos_part
          (max_ℤ (pos 0) (min_ℤ (sub32 (int32 r) (pos 1)) (sub32 (int32 (pos (suc n))) (pos 1)))))
      ≡ within_ranks r (suc n)
unfolding sub32 int32 ◌-ℤ◌
clamped-within_ranks (pos r) n h few = ground arith
clamped-within_ranks (negsuc r) n h few = ground arith

pub within_ranks-within : (r : ℤ) (n m : ℕ) → n ≡ suc m → within_ranks r n ≤ n
within_ranks-within r n m e = ground arith
