-- ===== src/Partitioned/Settled.antt =====
-- The partitions' counts and the limiter's, while no call is on its way in or out.
use limen.Base.{
  ℕ, zero, suc, ◌+◌, ◌≤◌, ◌<◌, ◌^◌, ◌≡◌, refl, sym, ap, ◌∙◌, List, [], ◌∷◌, ℤ, pos, ◌≤ℤ◌, ◌<ℤ◌,
  pos_part, int32, length, sum_of, All, if◌then◌else◌, ◌==◌, ltb, arith,
}
use limen.Partitioned.Threads.{Pc, entered, holding, leaving, System, Reach}
use limen.Partitioned.Moves.{holds, stays_in}
use limen.Partitioned.Counters.{Reach-counters}

-- The thread is not between its partition's count and the limiter's, and a slot that it holds is of
-- one of the first n partitions.
abbrev pub Settled : ℕ → Pc → Type 0
Settled n (holding i) = i < n
Settled n (entered i) = ⊥
Settled n (leaving i) = ⊥
Settled n _ = Unit

-- The sum over the first n partitions.
abbrev pub sum_below : (ℕ → ℕ) → ℕ → ℕ
sum_below f zero = 0
sum_below f (suc n) = f n + sum_below f n

sum_below_zero : (n : ℕ) → sum_below (λ j. 0) n ≡ 0
sum_below_zero zero = refl
sum_below_zero (suc n) = omega (arith, sum_below_zero n)

sum_below-add : (f g : ℕ → ℕ) (n : ℕ) → sum_below (λ j. f j + g j) n ≡ sum_below f n + sum_below g n
sum_below-add f g zero = refl
sum_below-add f g (suc n) = omega (arith, sum_below-add f g n)

sum_below_one : (i n : ℕ) → sum_below (λ j. if j == i then 1 else 0) n ≡ (if ltb i n then 1 else 0)
sum_below_one i zero = ground arith
sum_below_one i (suc n) = ground (arith, sum_below_one i n)

sum_below_same : (f g : ℕ → ℕ) (n : ℕ) → ((j : ℕ) → f j ≡ g j) → sum_below f n ≡ sum_below g n
sum_below_same f g zero h = refl
sum_below_same f g (suc n) h = omega (arith, h n, sum_below_same f g n h)

-- A settled thread counts once among the partitions if it holds a slot.
stays_in-holds : (n : ℕ) (p : Pc) → Settled n p → sum_below (λ j. stays_in j p) n ≡ holds p
stays_in-holds n (entered i) h = absurd h
stays_in-holds n (holding i) h = ground (arith, sum_below_one i n)
stays_in-holds n (leaving i) h = absurd h
stays_in-holds n _ h = sum_below_zero n

all_stay-hold :
    (n : ℕ) (threads : List Pc)
    → All (Settled n) threads
    → sum_below (λ j. sum_of (stays_in j) threads) n ≡ sum_of holds threads
all_stay-hold n [] h = sum_below_zero n
all_stay-hold n (p ∷ rest) h =
    sum_below-add (λ j. stays_in j p) (λ j. sum_of (stays_in j) rest) n
    ∙ omega (arith, stays_in-holds n p h.0, all_stay-hold n rest h.1)

-- A thread contributes one at most.
sum_of-le-length :
    (w : Pc → ℕ) → ((p : Pc) → w p ≤ 1) → (threads : List Pc) → sum_of w threads ≤ length threads
sum_of-le-length w h [] = omega arith
sum_of-le-length w h (p ∷ rest) = omega (arith, h p, sum_of-le-length w h rest)

holds-le : (p : Pc) → holds p ≤ 1
holds-le (holding i) = omega arith
holds-le _ = omega arith

stays_in-le : (j : ℕ) (p : Pc) → stays_in j p ≤ 1
stays_in-le j (entered i) = ground arith
stays_in-le j (holding i) = ground arith
stays_in-le j (leaving i) = ground arith
stays_in-le j _ = omega arith

shown : (x : ℤ) (k m : ℕ) → x ≡ int32 (pos k) → k ≤ m → m < 2 ^ 31 → x ≡ pos k
unfolding int32
shown x k m e le lt = ground arith

-- With fewer than 2^31 threads, in every state that they can reach in which none of them is between
-- its partition's count and the limiter's, and which hold slots of the first n partitions only: the
-- counts of these partitions add up to `InflightCount`.
pub Reach-sum_below :
    (x : System) (n : ℕ)
    → pos 0 ≤ℤ x.settings.max_delayed_threads
    → x.settings.max_delayed_threads <ℤ pos (2 ^ 31)
    → length x.threads < 2 ^ 31
    → All (Settled n) x.threads
    → Reach x
    → pos (sum_below (λ j. pos_part (x.counters.busy j)) n) ≡ x.counters.inflight
Reach-sum_below x n z t few h reached =
    let c = Reach-counters x z t reached in
    let part = λ (j : ℕ). ap pos_part (
      shown _ _ (length x.threads) (c.1 j) (sum_of-le-length (stays_in j) (stays_in-le j) x.threads)
        few) in
    ap pos (sum_below_same _ _ n part ∙ all_stay-hold n x.threads h)
    ∙ sym (shown _ _ (length x.threads) c.0 (sum_of-le-length holds holds-le x.threads) few)
