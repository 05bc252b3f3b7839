-- ===== src/Codel/Time.antt =====
-- What `CodelFilter` uses of absl::Time, absl::Duration and std::sqrt. The library is not part of the
-- repository, so its types and operations are a parameter.
use limen.Base.{ℕ, zero, suc, ◌+◌, ◌-◌, ◌*◌, ◌/◌, Bool, true, false, ltb, ◌==◌, ◌≡◌, arith}

pub record AbslTime : Type 1 where
  pub Time : Type 0
  pub Duration : Type 0
  pub Double : Type 0
  pub unix_epoch : Time
  pub zero_duration : Duration
  -- t + d, and t - u
  pub time_add : Time → Duration → Time
  pub time_sub : Time → Time → Duration
  pub time_lt : Time → Time → Bool
  pub time_eq : Time → Time → Bool
  pub duration_lt : Duration → Duration → Bool
  -- n * d, and d / x
  pub duration_mul : ℕ → Duration → Duration
  pub duration_div : Duration → Double → Duration
  -- static_cast<double>(uint32_t)
  pub double_of : ℕ → Double
  pub sqrt : Double → Double

-- `==` of two times is equality: absl::Time is totally ordered.
pub record IsTimeEq (a : AbslTime) : Type 0 where
  pub time_eq_refl : (t : a.Time) → a.time_eq t t ≡ true
  pub eq_of_time_eq : (t u : a.Time) → a.time_eq t u ≡ true → t ≡ u

-- Whole nanoseconds since the epoch, and roots as the number whose root is taken: the least divisor
-- whose square reaches it.
abbrev isqrt_from : ℕ → ℕ → ℕ → ℕ
isqrt_from zero n k = k
isqrt_from (suc fuel) n k = elim (ltb (k * k) n) [ true ↦ isqrt_from fuel n (k + 1) | false ↦ k ]

-- A clock of whole nanoseconds, for tests.
abbrev pub nanoseconds : AbslTime
nanoseconds = record {
  Time = ℕ;
  Duration = ℕ;
  Double = ℕ;
  unix_epoch = 0;
  zero_duration = 0;
  time_add = λ t d. t + d;
  time_sub = λ t u. t - u;
  time_lt = ltb;
  time_eq = ◌==◌;
  duration_lt = ltb;
  duration_mul = λ n d. n * d;
  duration_div = λ d x. d / x;
  double_of = λ n. n;
  sqrt = λ n. isqrt_from n n 0;
}

==_refl : (n : ℕ) → (n == n) ≡ true
==_refl n = ground arith

==-eq : (m n : ℕ) → (m == n) ≡ true → m ≡ n
==-eq m n h = ground arith

pub nanoseconds-IsTimeEq : IsTimeEq nanoseconds
nanoseconds-IsTimeEq = record { time_eq_refl = ==_refl; eq_of_time_eq = ==-eq }
