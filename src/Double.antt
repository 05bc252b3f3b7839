-- ===== src/Double.antt =====
-- What the code does with a `double`: the operations are a parameter, as the language has no floats.
use limen.Base.{
  ℕ, ◌^◌, ◌*◌, ◌+◌, ◌/◌, ◌≡◌, Bool, true, false, if◌then◌else◌, ℤ, pos, ltb_ℤ, ◌≤ℤ◌, sub_ℕ,
  pos_part, neg_part, IsInt32, arith, leb,
}

pub record DoubleOps : Type 1 where
  pub Double : Type 0
  -- static_cast<double> of an integer, static_cast<int> of a double, and std::lround
  pub of_int : ℤ → Double
  pub to_int : Double → ℤ
  pub lround : Double → ℤ
  -- the literal m / 10^k
  pub decimal : ℕ → ℕ → Double
  pub add : Double → Double → Double
  pub sub : Double → Double → Double
  pub mul : Double → Double → Double
  pub div : Double → Double → Double
  pub lt : Double → Double → Bool
  pub sqrt : Double → Double
  pub ceil : Double → Double

module _ (d : DoubleOps) where
  open d use {Double, lt}

  -- std::min and std::max. With a NaN on the right both answer the left argument.
  abbrev pub min_double : Double → Double → Double
  min_double a b = if lt b a then b else a

  abbrev pub max_double : Double → Double → Double
  max_double a b = if lt a b then b else a

-- Every int is a double exactly, comparisons agree, and a cast to int truncates. Nothing is said of a
-- comparison that answers false, so NaN is allowed.
pub record IsCast (d : DoubleOps) : Type 0 where
  pub lt-of_int : (a b : ℤ) → IsInt32 a → IsInt32 b → d.lt (d.of_int a) (d.of_int b) ≡ ltb_ℤ a b
  pub to_int-of_int : (a : ℤ) → IsInt32 a → d.to_int (d.of_int a) ≡ a
  pub le-to_int : (a : ℤ) (x : d.Double) → IsInt32 a → d.lt (d.of_int a) x ≡ true → a ≤ℤ d.to_int x
  pub to_int-le : (x : d.Double) (b : ℤ) → IsInt32 b → d.lt x (d.of_int b) ≡ true → d.to_int x ≤ℤ b

-- Thousandths, rounded towards zero: an instance for tests.
abbrev milli : ℕ
milli = 1000

abbrev scale : ℤ → ℕ → ℤ
scale z n = sub_ℕ (pos_part z * n) (neg_part z * n)

abbrev times_milli : ℤ → ℤ → ℤ
times_milli a b =
    sub_ℕ ((pos_part a * pos_part b + neg_part a * neg_part b) / milli)
      ((pos_part a * neg_part b + neg_part a * pos_part b) / milli)

abbrev div_milli : ℤ → ℤ → ℤ
div_milli a b =
    sub_ℕ (pos_part a * milli / pos_part b + neg_part a * milli / neg_part b)
      (pos_part a * milli / neg_part b + neg_part a * milli / pos_part b)

abbrev round_milli : ℕ → ℤ → ℤ
round_milli up z = sub_ℕ ((pos_part z + up) / milli) (neg_part z / milli)

abbrev root_from : ℕ → ℕ → ℕ → ℕ
root_from ℕ.zero n k = k
root_from (ℕ.suc fuel) n k = elim (leb n (k * k)) [ true ↦ k | false ↦ root_from fuel n (k + 1) ]

abbrev pub thousandths : DoubleOps
thousandths = record {
  Double = ℤ;
  of_int = λ z. scale z milli;
  to_int = λ z. quot_trunc z;
  lround = round_milli 500;
  decimal = λ m k. pos (m * milli / 10 ^ k);
  add = λ a b. sub_ℕ (pos_part a + pos_part b) (neg_part a + neg_part b);
  sub = λ a b. sub_ℕ (pos_part a + neg_part b) (neg_part a + pos_part b);
  mul = times_milli;
  div = div_milli;
  lt = ltb_ℤ;
  sqrt = λ z. pos (root_from 200 (pos_part z * milli) 0);
  ceil = λ z. scale (round_milli 999 z) milli;
}
  where
    quot_trunc : ℤ → ℤ
    quot_trunc z = sub_ℕ (pos_part z / milli) (neg_part z / milli)

pub thousandths-IsCast : IsCast thousandths
thousandths-IsCast = record {
  lt-of_int = λ a b _ _. ground arith;
  to_int-of_int = λ a _. ground arith;
  le-to_int = λ a x _ h. ground arith;
  to_int-le = λ x b _ h. ground arith;
}
