-- ===== src/Base/Words.antt =====
-- `int`, `int64_t` and `uint32_t`. Atomic and unsigned arithmetic wraps, in two's complement. Signed
-- arithmetic outside the atomics has no meaning in C++ where it overflows; here it wraps as well.
use Prim.Native.Nat.{ℕ, suc, ◌+◌, ◌-◌, ◌%◌, ◌^◌, ◌≤◌, ◌<◌}
use mathlib.Core.Path.{◌≡◌, ◌∙◌, ap}
use native.Mathlib.Omega.{arith}
use limen.Base.Tests.{ltb, if◌then◌else◌}
use limen.Base.Int.{ℤ, pos, negsuc, pos_part, neg_part, ◌+ℤ◌, ◌-ℤ◌, int_laws, eq_of_parts, +ℤ_parts}

-- The int of which `w` is the bit pattern.
abbrev pub signed32 : ℕ → ℤ
signed32 w = if ltb w (2 ^ 31) then pos w else negsuc (2 ^ 32 - 1 - w)

unfoldable pub int32 : ℤ → ℤ
int32 (pos n) = signed32 (n % 2 ^ 32)
int32 (negsuc n) = signed32 (2 ^ 32 - 1 - n % 2 ^ 32)

abbrev pub signed64 : ℕ → ℤ
signed64 w = if ltb w (2 ^ 63) then pos w else negsuc (2 ^ 64 - 1 - w)

unfoldable pub int64 : ℤ → ℤ
int64 (pos n) = signed64 (n % 2 ^ 64)
int64 (negsuc n) = signed64 (2 ^ 64 - 1 - n % 2 ^ 64)

abbrev pub int64_max : ℤ
int64_max = pos (2 ^ 63 - 1)

abbrev pub IsInt32 : ℤ → Type 0
IsInt32 z = (pos_part z < 2 ^ 31) × (neg_part z ≤ 2 ^ 31)

abbrev pub IsInt64 : ℤ → Type 0
IsInt64 z = (pos_part z < 2 ^ 63) × (neg_part z ≤ 2 ^ 63)

-- std::atomic<int>::fetch_add and fetch_sub: the new value.
unfoldable pub add32 : ℤ → ℤ → ℤ
add32 a b = int32 (a +ℤ b)

unfoldable pub sub32 : ℤ → ℤ → ℤ
sub32 a b = int32 (a -ℤ b)

unfoldable pub add64 : ℤ → ℤ → ℤ
add64 a b = int64 (a +ℤ b)

unfoldable pub sub64 : ℤ → ℤ → ℤ
sub64 a b = int64 (a -ℤ b)

unfoldable pub u32_add : ℕ → ℕ → ℕ
u32_add a b = (a + b) % 2 ^ 32

unfoldable pub u32_sub : ℕ → ℕ → ℕ
u32_sub a b = (a + 2 ^ 32 - b) % 2 ^ 32

pub int32-eq_self : (z : ℤ) → IsInt32 z → int32 z ≡ z
unfolding int32
int32-eq_self z h = ground arith

pub int64-eq_self : (z : ℤ) → IsInt64 z → int64 z ≡ z
unfolding int64
int64-eq_self z h = ground arith

pub int32-IsInt32 : (z : ℤ) → IsInt32 (int32 z)
unfolding int32
int32-IsInt32 z = ground arith

pub int64-IsInt64 : (z : ℤ) → IsInt64 (int64 z)
unfolding int64
int64-IsInt64 z = ground arith

-- A counter that wraps keeps the residue of the count.
pub add32-int32 : (n : ℕ) → add32 (int32 (pos n)) (pos 1) ≡ int32 (pos (suc n))
unfolding add32 int32 ◌+ℤ◌
add32-int32 n = ground arith

pub sub32-int32 : (n : ℕ) → sub32 (int32 (pos (suc n))) (pos 1) ≡ int32 (pos n)
unfolding sub32 int32 ◌-ℤ◌
sub32-int32 n = ground arith

pub add64-int64 : (n : ℕ) → add64 (int64 (pos n)) (pos 1) ≡ int64 (pos (suc n))
unfolding add64 int64 ◌+ℤ◌
add64-int64 n = ground arith

pub sub32-add32 : (z : ℤ) → IsInt32 z → sub32 (add32 z (pos 1)) (pos 1) ≡ z
unfolding sub32 add32 int32 ◌+ℤ◌ ◌-ℤ◌
sub32-add32 (pos n) h = ground arith
sub32-add32 (negsuc n) h = ground arith

swap_last : (s a b : ℤ) → s +ℤ a +ℤ b ≡ s +ℤ b +ℤ a
swap_last s a b = omega int_laws

-- Wrapping a summand first changes nothing.
pub int64-add : (x b : ℤ) → int64 (int64 x +ℤ b) ≡ int64 (x +ℤ b)
unfolding int64 ◌+ℤ◌
int64-add (pos n) (pos m) = ground arith
int64-add (pos n) (negsuc m) = ground arith
int64-add (negsuc n) (pos m) = ground arith
int64-add (negsuc n) (negsuc m) = ground arith

-- Sums that wrap can be taken in any order.
pub add64_comm : (s a b : ℤ) → add64 (add64 s a) b ≡ add64 (add64 s b) a
unfolding add64
add64_comm s a b = rw (int64-add (s +ℤ a) b, int64-add (s +ℤ b) a, swap_last s a b)

pub add64-int64_nonneg :
    (n : ℕ) (z : ℤ) → neg_part z ≡ 0 → add64 (int64 (pos n)) z ≡ int64 (pos (pos_part z + n))
unfolding add64
add64-int64_nonneg n z h =
    int64-add (pos n) z ∙ ap int64 (eq_of_parts _ _ (omega (arith, +ℤ_parts (pos n) z)))

pub add32-pos : (n : ℕ) → suc n < 2 ^ 31 → add32 (pos n) (pos 1) ≡ pos (suc n)
unfolding add32 int32 ◌+ℤ◌
add32-pos n h = ground arith
