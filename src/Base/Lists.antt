-- ===== src/Base/Lists.antt =====
-- Lists measured and indexed by native numbers, and sums over lists.
use Prim.Native.Nat.{ℕ, zero, suc, ◌+◌}
use mathlib.Core.Path.{◌≡◌, refl, ap}
use mathlib.Core.List.{List, [], ◌∷◌, ◌++◌}
use mathlib.Core.Option.{Option, none, some}
use native.Mathlib.Omega.{arith}

module _ {ℓ} {A : Type ℓ} where
  abbrev pub length : List A → ℕ
  length [] = 0
  length (x ∷ xs) = suc (length xs)

  abbrev pub get_elem? : List A → ℕ → Option A
  get_elem? [] i = none
  get_elem? (x ∷ xs) zero = some x
  get_elem? (x ∷ xs) (suc i) = get_elem? xs i

  -- A write out of bounds changes nothing.
  abbrev pub set : List A → ℕ → A → List A
  set [] i v = []
  set (x ∷ xs) zero v = v ∷ xs
  set (x ∷ xs) (suc i) v = x ∷ set xs i v

  abbrev pub get_or : List A → ℕ → A → A
  get_or [] i d = d
  get_or (x ∷ xs) zero d = x
  get_or (x ∷ xs) (suc i) d = get_or xs i d

  abbrev pub take : ℕ → List A → List A
  take zero xs = []
  take (suc n) [] = []
  take (suc n) (x ∷ xs) = x ∷ take n xs

  abbrev pub replicate : ℕ → A → List A
  replicate zero a = []
  replicate (suc n) a = a ∷ replicate n a

  -- The sum of a weight over a list.
  abbrev pub sum_of : (A → ℕ) → List A → ℕ
  sum_of w [] = 0
  sum_of w (x ∷ xs) = w x + sum_of w xs

  abbrev pub All {κ} : (A → Type κ) → List A → Type κ
  All P [] = Unit
  All P (x ∷ xs) = P x × All P xs

  pub length-append : (xs ys : List A) → length (xs ++ ys) ≡ length xs + length ys
  length-append [] ys = omega arith
  length-append (x ∷ xs) ys = omega (arith, length-append xs ys)

  pub length-set : (xs : List A) (i : ℕ) (v : A) → length (set xs i v) ≡ length xs
  length-set [] i v = refl
  length-set (x ∷ xs) zero v = refl
  length-set (x ∷ xs) (suc i) v = ap suc (length-set xs i v)

  pub sum_of-append : (w : A → ℕ) (xs ys : List A) → sum_of w (xs ++ ys) ≡ sum_of w xs + sum_of w ys
  sum_of-append w [] ys = omega arith
  sum_of-append w (x ∷ xs) ys = omega (arith, sum_of-append w xs ys)

  pub sum_of-middle :
      (w : A → ℕ) (before behind : List A) (x : A)
      → sum_of w (before ++ x ∷ behind) ≡ w x + (sum_of w before + sum_of w behind)
  sum_of-middle w before behind x = omega (arith, sum_of-append w before (x ∷ behind))

  pub sum_of-replicate : (w : A → ℕ) (n : ℕ) (x : A) → w x ≡ 0 → sum_of w (replicate n x) ≡ 0
  sum_of-replicate w zero x e = refl
  sum_of-replicate w (suc n) x e = omega (arith, e, sum_of-replicate w n x e)

  -- Replacing an element moves the sum by the difference of the two weights.
  pub sum_of-set :
      (w : A → ℕ) (xs : List A) (i : ℕ) (x v : A)
      → get_elem? xs i ≡ some x
      → sum_of w (set xs i v) + w x ≡ sum_of w xs + w v
  sum_of-set w [] i x v e = cc
  sum_of-set w (y ∷ ys) zero x v e = ground arith
  sum_of-set w (y ∷ ys) (suc i) x v e = omega (arith, sum_of-set w ys i x v e)

  -- One element of a list, among the others.
  pub All-middle {κ} :
      (P : A → Type κ) (before behind : List A) (x : A)
      → All P (before ++ x ∷ behind)
      → P x × ((y : A) → P y → All P (before ++ y ∷ behind))
  All-middle P [] behind x h = (h.0, λ y k. (k, h.1))
  All-middle P (z ∷ before) behind x h =
      let (mine, rest) = All-middle P before behind x h.1 in (mine, λ y k. (h.0, rest y k))

  pub All-replicate {κ} : (P : A → Type κ) (n : ℕ) (x : A) → P x → All P (replicate n x)
  All-replicate P zero x h = tt
  All-replicate P (suc n) x h = (h, All-replicate P n x h)

  pub All-map {κ μ} :
      (P : A → Type κ) (Q : A → Type μ) (xs : List A) → ((x : A) → P x → Q x) → All P xs → All Q xs
  All-map P Q [] f h = tt
  All-map P Q (x ∷ xs) f h = (f x h.0, All-map P Q xs f h.1)
