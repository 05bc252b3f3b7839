-- ===== src/Window/Sorting.antt =====
-- Ranks in a sorted buffer.
use limen.Base.{
  ℕ, zero, suc, ◌+◌, ◌≤◌, ◌<◌, ◌≡◌, refl, List, [], ◌∷◌, ℤ, pos, ◌≤ℤ◌, leb_ℤ, length, get_or,
  sum_of, All, if◌then◌else◌, arith, Bool-cases, inl, inr, leb_ℤ→le, leb_ℤ→gt,
}
use limen.Window.Percentile.{insert, sort}

-- How many values are at most `v`, and how many are at least `v`.
abbrev pub at_most : ℤ → List ℤ → ℕ
at_most v = sum_of λ x. if leb_ℤ x v then 1 else 0

abbrev pub at_least : ℤ → List ℤ → ℕ
at_least v = sum_of λ x. if leb_ℤ v x then 1 else 0

sum_of-insert : (w : ℤ → ℕ) (x : ℤ) (xs : List ℤ) → sum_of w (insert x xs) ≡ w x + sum_of w xs
unfolding insert
sum_of-insert w x [] = refl
sum_of-insert w x (y ∷ ys) = ground (arith, sum_of-insert w x ys)

pub sum_of-sort : (w : ℤ → ℕ) (xs : List ℤ) → sum_of w (sort xs) ≡ sum_of w xs
unfolding sort
sum_of-sort w [] = refl
sum_of-sort w (x ∷ xs) = omega (arith, sum_of-insert w x (sort xs), sum_of-sort w xs)

length-insert : (x : ℤ) (xs : List ℤ) → length (insert x xs) ≡ suc (length xs)
unfolding insert
length-insert x [] = refl
length-insert x (y ∷ ys) = ground (arith, length-insert x ys)

pub length-sort : (xs : List ℤ) → length (sort xs) ≡ length xs
unfolding sort
length-sort [] = refl
length-sort (x ∷ xs) = omega (arith, length-insert x (sort xs), length-sort xs)

-- Ascending.
abbrev pub IsSorted : List ℤ → Type 0
IsSorted [] = Unit {0}
IsSorted (x ∷ xs) = All (λ y. x ≤ℤ y) xs × IsSorted xs

All-trans : (x y : ℤ) (zs : List ℤ) → x ≤ℤ y → All (λ z. y ≤ℤ z) zs → All (λ z. x ≤ℤ z) zs
All-trans x y [] h a = tt
All-trans x y (z ∷ zs) h a = (omega arith, All-trans x y zs h a.1)

All-insert :
    (a x : ℤ) (xs : List ℤ) → a ≤ℤ x → All (λ z. a ≤ℤ z) xs → All (λ z. a ≤ℤ z) (insert x xs)
unfolding insert
All-insert a x [] h k = (h, tt)
All-insert a x (y ∷ ys) h k = ground (arith, All-insert a x ys h k.1)

insert-IsSorted : (x : ℤ) (xs : List ℤ) → IsSorted xs → IsSorted (insert x xs)
unfolding insert
insert-IsSorted x [] s = (tt, tt)
insert-IsSorted x (y ∷ ys) (low, s) = elim (Bool-cases (leb_ℤ x y)) [
  | inl le ↦ rw le ((leb_ℤ→le x y le, All-trans x y ys (leb_ℤ→le x y le) low), (low, s))
  | inr gt ↦ rw gt (All-insert y x ys (omega (arith, leb_ℤ→gt x y gt)) low, insert-IsSorted x ys s)
]

pub sort-IsSorted : (xs : List ℤ) → IsSorted (sort xs)
unfolding sort
sort-IsSorted [] = tt
sort-IsSorted (x ∷ xs) = insert-IsSorted x (sort xs) (sort-IsSorted xs)

at_least-All : (v : ℤ) (xs : List ℤ) → All (λ y. v ≤ℤ y) xs → at_least v xs ≡ length xs
at_least-All v [] a = refl
at_least-All v (x ∷ xs) a = ground (arith, at_least-All v xs a.1)

get_or-All :
    (P : ℤ → Type 0) (xs : List ℤ) (k : ℕ) → k < length xs → All P xs → P (get_or xs k (pos 0))
get_or-All P [] k h a = absurd (omega arith)
get_or-All P (x ∷ xs) zero h a = a.0
get_or-All P (x ∷ xs) (suc k) h a = get_or-All P xs k (omega arith) a.1

-- In an ascending list at least k + 1 values are at most the one at index k, and at least all from k
-- on are at least it.
pub get_or-rank :
    (xs : List ℤ) (k : ℕ)
    → IsSorted xs
    → k < length xs
    → let v = get_or xs k (pos 0) in (k < at_most v xs) × (length xs ≤ k + at_least v xs)
get_or-rank [] k s h = absurd (omega arith)
get_or-rank (x ∷ xs) zero s h = ground (arith, at_least-All x xs s.0)
get_or-rank (x ∷ xs) (suc k) s h =
    ground
      (arith, get_or-rank xs k s.1 (omega arith), get_or-All (λ y. x ≤ℤ y) xs k (omega arith) s.0)
