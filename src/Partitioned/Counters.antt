-- ===== src/Partitioned/Counters.antt =====
-- The counters of a partitioned limiter, and its budget of delayed threads, over any interleaving.
use limen.Base.{
  ℕ, ◌+◌, ◌^◌, ◌≡◌, refl, sym, ap, ◌∙◌, List, ◌∷◌, ◌++◌, ℤ, pos, ◌≤ℤ◌, ◌<ℤ◌, int32, sum_of,
  sum_of-middle, sum_of-replicate, arith,
}
use limen.Partitioned.Threads.{
  Pc, idle, Counters, System, Move, Step, moves, publishes, recomputes, Reach, start, later,
}
use limen.Partitioned.Moves.{holds, stays_in, sleeps, Move-Agree}

-- The counters agree with where all the threads stand.
record IsSafe (x : System) : Type 0 where
  inflight : x.counters.inflight ≡ int32 (pos (sum_of holds x.threads))
  busy : (j : ℕ) → x.counters.busy j ≡ int32 (pos (sum_of (stays_in j) x.threads))
  delayed : x.counters.delayed_threads ≡ pos (sum_of sleeps x.threads)
  budget : x.counters.delayed_threads ≤ℤ x.settings.max_delayed_threads

-- The others' part of a sum over the threads.
abbrev others : (Pc → ℕ) → List Pc → List Pc → ℕ
others w before behind = sum_of w before + sum_of w behind

moves-IsSafe :
    (x : System) (before behind : List Pc) (p : Pc) (c : Counters) (q : Pc)
    → x.settings.max_delayed_threads <ℤ pos (2 ^ 31)
    → x.threads ≡ before ++ p ∷ behind
    → Move x.counters x.settings p c q
    → IsSafe x
    → IsSafe (record x { counters = c; threads = before ++ q ∷ behind })
moves-IsSafe x before behind p c q t e move h =
    let split = λ (w : Pc → ℕ). ap (sum_of w) e ∙ sum_of-middle w before behind p in
    let k =
      Move-Agree x.settings (others holds before behind) (λ j. others (stays_in j) before behind)
        (others sleeps before behind) x.counters p c q t
        (record {
          inflight = h.inflight ∙ ap (λ n. int32 (pos n)) (split holds);
          busy = λ j. h.busy j ∙ ap (λ n. int32 (pos n)) (split (stays_in j));
          delayed = h.delayed ∙ ap pos (split sleeps);
          budget = h.budget;
        })
        move in
    record {
      inflight = k.inflight ∙ ap (λ n. int32 (pos n)) (sym (sum_of-middle holds before behind q));
      busy = λ j.
          k.busy j ∙ ap (λ n. int32 (pos n)) (sym (sum_of-middle (stays_in j) before behind q));
      delayed = k.delayed ∙ ap pos (sym (sum_of-middle sleeps before behind q));
      budget = k.budget;
    }

Step-IsSafe :
    (x y : System) → x.settings.max_delayed_threads <ℤ pos (2 ^ 31) → Step x y → IsSafe x → IsSafe y
Step-IsSafe x y t (moves before behind p {c} {q} e move) h =
    moves-IsSafe x before behind p c q t e move h
Step-IsSafe x y t (publishes cap) h = record {
  inflight = h.inflight;
  busy = h.busy;
  delayed = h.delayed;
  budget = h.budget;
}
Step-IsSafe x y t (recomputes i cap) h = record {
  inflight = h.inflight;
  busy = h.busy;
  delayed = h.delayed;
  budget = h.budget;
}

Step-max_delayed_threads :
    (x y : System) → Step x y → x.settings.max_delayed_threads ≡ y.settings.max_delayed_threads
Step-max_delayed_threads x y (moves before behind p e move) = refl
Step-max_delayed_threads x y (publishes cap) = refl
Step-max_delayed_threads x y (recomputes i cap) = refl

abbrev IsBudget : ℤ → Type 0
IsBudget n = (pos 0 ≤ℤ n) × (n <ℤ pos (2 ^ 31))

Reach-IsSafe : (x : System) → IsBudget x.settings.max_delayed_threads → Reach x → IsSafe x
unfolding int32
Reach-IsSafe x t (start settings n) = record {
  inflight = ap (λ k. int32 (pos k)) (sym (sum_of-replicate holds n idle refl));
  busy = λ j. ap (λ k. int32 (pos k)) (sym (sum_of-replicate (stays_in j) n idle refl));
  delayed = ap pos (sym (sum_of-replicate sleeps n idle refl));
  budget = t.0;
}
Reach-IsSafe y t (later {x} reached step) =
    let same = Step-max_delayed_threads x y step in
    let b : IsBudget x.settings.max_delayed_threads = rw same t in
    Step-IsSafe x y b.1 step (Reach-IsSafe x b reached)

le_left : (x y z : ℤ) → x ≡ y → x ≤ℤ z → y ≤ℤ z
le_left x y z e h = ground arith

-- In every state that any number of threads can reach, one access to an atomic at a time, with weak
-- exchanges that may fail and limits stored in between, `InflightCount` is the number of slots held,
-- each partition's count is the number of its calls between their admission by it and the end of
-- their release, each as an int, which wraps, and the delayed threads are those asleep, at most as
-- many as configured, a bound that is not negative and is an int.
pub Reach-counters :
    (x : System)
    → pos 0 ≤ℤ x.settings.max_delayed_threads
    → x.settings.max_delayed_threads <ℤ pos (2 ^ 31)
    → Reach x
    → (x.counters.inflight ≡ int32 (pos (sum_of holds x.threads)))
      × ((j : ℕ) → x.counters.busy j ≡ int32 (pos (sum_of (stays_in j) x.threads)))
      × (x.counters.delayed_threads ≡ pos (sum_of sleeps x.threads))
      × (pos (sum_of sleeps x.threads) ≤ℤ x.settings.max_delayed_threads)
Reach-counters x z t reached =
    let h = Reach-IsSafe x (z, t) reached in
    (h.inflight, h.busy, h.delayed, le_left x.counters.delayed_threads _ _ h.delayed h.budget)
