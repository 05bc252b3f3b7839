-- ===== src/Base/Int.antt =====
-- Signed integers over the native numbers. Sums and orders go through the two parts of an integer,
-- which are numbers that `omega` reads.
use Prim.Native.Nat.{ℕ, suc, ◌+◌, ◌-◌, ◌*◌, ◌/◌, ◌≤◌, ◌<◌}
use mathlib.Core.Path.{◌≡◌}
use mathlib.Core.Bool.{Bool, true, false}
use native.Mathlib.Omega.{arith}
use mathlib.Core.Logic.{◌⊎◌, inl, inr}
use limen.Base.Tests.{ltb, leb, if◌then◌else◌, Bool-cases}

-- `negsuc n` is -(n + 1).
pub data ℤ : Type 0 where
  pos : ℕ → ℤ
  negsuc : ℕ → ℤ

abbrev pub pos_part : ℤ → ℕ
pos_part (pos n) = n
pos_part (negsuc n) = 0

abbrev pub neg_part : ℤ → ℕ
neg_part (pos n) = 0
neg_part (negsuc n) = suc n

-- a - b, as an integer.
abbrev pub sub_ℕ : ℕ → ℕ → ℤ
sub_ℕ a b = if leb b a then pos (a - b) else negsuc (b - a - 1)

infixl 65 ◌+ℤ◌ ◌-ℤ◌
infix 50 ◌≤ℤ◌ ◌<ℤ◌
unfoldable pub ◌+ℤ◌ : ℤ → ℤ → ℤ
a +ℤ b = sub_ℕ (pos_part a + pos_part b) (neg_part a + neg_part b)

unfoldable pub ◌-ℤ◌ : ℤ → ℤ → ℤ
a -ℤ b = sub_ℕ (pos_part a + neg_part b) (neg_part a + pos_part b)

-- Twice an integer.
unfoldable pub double_ℤ : ℤ → ℤ
double_ℤ a = sub_ℕ (2 * pos_part a) (2 * neg_part a)

-- C++ division by a positive divisor: it truncates towards zero.
unfoldable pub quot_ℤ : ℤ → ℕ → ℤ
quot_ℤ a n = sub_ℕ (pos_part a / n) (neg_part a / n)

abbrev pub ◌≤ℤ◌ : ℤ → ℤ → Type 0
a ≤ℤ b = pos_part a + neg_part b ≤ pos_part b + neg_part a

abbrev pub ◌<ℤ◌ : ℤ → ℤ → Type 0
a <ℤ b = pos_part a + neg_part b < pos_part b + neg_part a

abbrev pub ltb_ℤ : ℤ → ℤ → Bool
ltb_ℤ a b = ltb (pos_part a + neg_part b) (pos_part b + neg_part a)

abbrev pub leb_ℤ : ℤ → ℤ → Bool
leb_ℤ a b = leb (pos_part a + neg_part b) (pos_part b + neg_part a)

abbrev pub eqb_ℤ : ℤ → ℤ → Bool
eqb_ℤ a b = if leb_ℤ a b then leb_ℤ b a else false

-- std::min and std::max of two integers.
abbrev pub min_ℤ : ℤ → ℤ → ℤ
min_ℤ a b = if ltb_ℤ b a then b else a

abbrev pub max_ℤ : ℤ → ℤ → ℤ
max_ℤ a b = if ltb_ℤ a b then b else a

pub +ℤ_parts :
    (a b : ℤ)
    → pos_part (a +ℤ b) + neg_part a + neg_part b ≡ neg_part (a +ℤ b) + pos_part a + pos_part b
unfolding ◌+ℤ◌
+ℤ_parts a b = ground arith

pub -ℤ_parts :
    (a b : ℤ)
    → pos_part (a -ℤ b) + neg_part a + pos_part b ≡ neg_part (a -ℤ b) + pos_part a + neg_part b
unfolding ◌-ℤ◌
-ℤ_parts a b = ground arith

pub eq_of_parts : (a b : ℤ) → pos_part a + neg_part b ≡ pos_part b + neg_part a → a ≡ b
eq_of_parts a b h = ground arith

pub eqb_ℤ→eq : (a b : ℤ) → eqb_ℤ a b ≡ true → a ≡ b
eqb_ℤ→eq a b h = ground arith

pub ltb_ℤ→lt : (a b : ℤ) → ltb_ℤ a b ≡ true → a <ℤ b
ltb_ℤ→lt a b h = ground arith

pub ltb_ℤ→ge : (a b : ℤ) → ltb_ℤ a b ≡ false → b ≤ℤ a
ltb_ℤ→ge a b h = ground arith

pub leb_ℤ→le : (a b : ℤ) → leb_ℤ a b ≡ true → a ≤ℤ b
leb_ℤ→le a b h = ground arith

pub leb_ℤ→gt : (a b : ℤ) → leb_ℤ a b ≡ false → b <ℤ a
leb_ℤ→gt a b h = ground arith

pub ruleset int_laws =
    (arith, +ℤ_parts, -ℤ_parts, eq_of_parts, ltb_ℤ→lt, ltb_ℤ→ge, leb_ℤ→le, leb_ℤ→gt)

pub le_cases : (a b : ℤ) → a ≤ℤ b → (a ≡ b) ⊎ (ltb_ℤ a b ≡ true)
le_cases a b h = elim (Bool-cases (ltb_ℤ a b)) [
  | inl less ↦ inr less
  | inr more ↦ inl (eq_of_parts a b (omega (arith, ltb_ℤ→ge a b more)))
]
