-- ===== src/Blocking/Orders.antt =====
-- What joining and leaving the queue does to the number of times a frame stands in it.
use limen.Base.{
  ℕ, ◌+◌, ◌<◌, ◌-◌, ◌≡◌, refl, ap, ◌∙◌, Bool, true, false, if◌then◌else◌, ◌==◌, leb, List, [], ◌∷◌,
  length, sum_of, sum_of-append, none, some, arith, sym,
}
use limen.Blocking.Defs.{Waiter, Discipline, remove_first, remove_last, is_parked, fifo, lifo}

-- How often a frame is in the queue.
abbrev pub hit : ℕ → Waiter → ℕ
hit i w = if w.frame == i then 1 else 0

abbrev pub occurrences : ℕ → List Waiter → ℕ
occurrences i = sum_of (hit i)

-- What the frames need of a discipline.
pub record IsDiscipline (order : Discipline) : Type 0 where
  pub joins :
      (w : Waiter) (queue queue' : List Waiter) (i : ℕ)
      → order.join w queue ≡ some queue'
      → occurrences i queue' ≡ hit i w + occurrences i queue
  pub leaves :
      (i j : ℕ) (queue : List Waiter)
      → occurrences j (order.leave i queue)
        ≡ (if i == j then occurrences j queue - 1 else occurrences j queue)

some-injective : {A : Type 0} {a b : A} → some a ≡ some b → a ≡ b
some-injective e = cc

remove_first-leaves :
    (i j : ℕ) (queue : List Waiter)
    → occurrences j (remove_first i queue)
      ≡ (if i == j then occurrences j queue - 1 else occurrences j queue)
unfolding remove_first
remove_first-leaves i j [] = ground arith
remove_first-leaves i j (w ∷ rest) = ground (arith, remove_first-leaves i j rest)

is_parked-occurrences :
    (i : ℕ) (queue : List Waiter) → is_parked i queue ≡ false → occurrences i queue ≡ 0
unfolding is_parked
is_parked-occurrences i [] e = refl
is_parked-occurrences i (w ∷ rest) e = ground (arith, is_parked-occurrences i rest)

is_parked-positive :
    (i : ℕ) (queue : List Waiter) → is_parked i queue ≡ true → 0 < occurrences i queue
unfolding is_parked
is_parked-positive i [] e = cc
is_parked-positive i (w ∷ rest) e = ground (arith, is_parked-positive i rest)

remove_last-leaves :
    (i j : ℕ) (queue : List Waiter)
    → occurrences j (remove_last i queue)
      ≡ (if i == j then occurrences j queue - 1 else occurrences j queue)
unfolding remove_last
remove_last-leaves i j [] = ground arith
remove_last-leaves i j (w ∷ rest) =
    ground
      (arith, remove_last-leaves i j rest, is_parked-occurrences i rest, is_parked-positive i rest)

pub fifo-IsDiscipline : IsDiscipline fifo
fifo-IsDiscipline = record {
  joins = λ w queue queue' i e.
      ap (occurrences i) (some-injective (sym e))
      ∙ omega (arith, sum_of-append (hit i) queue (w ∷ []));
  leaves = remove_first-leaves;
}

pub lifo-IsDiscipline : (backlog_size : ℕ) → IsDiscipline (lifo backlog_size)
lifo-IsDiscipline n = record {
  joins = λ w queue queue' i e. pushed w queue queue' i (leb n (length queue)) e;
  leaves = remove_last-leaves;
}
  where
    pushed :
        (w : Waiter) (queue queue' : List Waiter) (i : ℕ) (full : Bool)
        → (if full then none else some (w ∷ queue)) ≡ some queue'
        → occurrences i queue' ≡ hit i w + occurrences i queue
    pushed w queue queue' i true e = cc
    pushed w queue queue' i false e = ap (occurrences i) (some-injective (sym e))
