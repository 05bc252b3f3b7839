-- ===== src/Partitioned/Moves.antt =====
-- What one thread's step does to the counters of a partitioned limiter.
use limen.Base.{
  ℕ, ◌+◌, ◌≡◌, refl, sym, ap, ◌∙◌, ℤ, pos, ◌≤ℤ◌, Bool, true, false, add32, sub32, int32,
  add32-int32, sub32-int32, if◌then◌else◌, ◌==◌, ==→eq, arith, ◌+ℤ◌, ◌<ℤ◌, ◌-ℤ◌, int_laws, ◌^◌,
}
use limen.Partitioned.Threads.{
  Pc, idle, entered, holding, leaving, sleeping, Counters, Settings, set_busy, Move, resolve, count,
  find_idle, find_full, read_limit, compare_idle, compare_full, burst, load, read_cap, reject,
  cas_win, cas_lose, admit, release, release_partition, no_delay, ask, exhausted, reserve,
  reserve_lose, wake,
}

-- What a thread contributes to each counter.
abbrev pub holds : Pc → ℕ
holds (holding i) = 1
holds _ = 0

abbrev pub stays_in : ℕ → Pc → ℕ
stays_in j (entered i) = if j == i then 1 else 0
stays_in j (holding i) = if j == i then 1 else 0
stays_in j (leaving i) = if j == i then 1 else 0
stays_in j _ = 0

abbrev pub sleeps : Pc → ℕ
sleeps (sleeping i) = 1
sleeps _ = 0

-- The counters when thread `p` stands beside others that contribute `held`, `inside` and `asleep`.
pub record Agree (s : Settings) (held : ℕ) (inside : ℕ → ℕ) (asleep : ℕ) (c : Counters) (p : Pc)
    : Type 0 where
  pub inflight : c.inflight ≡ int32 (pos (holds p + held))
  pub busy : (j : ℕ) → c.busy j ≡ int32 (pos (stays_in j p + inside j))
  pub delayed : c.delayed_threads ≡ pos (sleeps p + asleep)
  pub budget : c.delayed_threads ≤ℤ s.max_delayed_threads

-- One more of a counter that wraps, and one less.
one_more : (x : ℤ) (k : ℕ) → x ≡ int32 (pos (0 + k)) → add32 x (pos 1) ≡ int32 (pos (1 + k))
one_more x k e =
    ap (λ z. add32 z (pos 1)) e ∙ add32-int32 (0 + k) ∙ ap (λ n. int32 (pos n)) (omega arith)

one_less : (x : ℤ) (k : ℕ) → x ≡ int32 (pos (1 + k)) → sub32 x (pos 1) ≡ int32 (pos (0 + k))
one_less x k e =
    ap (λ z. sub32 z (pos 1)) (e ∙ ap (λ n. int32 (pos n)) (omega arith))
    ∙ sub32-int32 k
    ∙ ap (λ n. int32 (pos n)) (omega arith)

same_index : (i : ℕ) → stays_in i (entered i) ≡ 1
same_index i = ground arith

-- A write to one partition's counter.
busy-set :
    (busy : ℕ → ℤ) (i : ℕ) (n : ℤ) (mine mine' inside : ℕ → ℕ)
    → ((j : ℕ) → busy j ≡ int32 (pos (mine j + inside j)))
    → n ≡ int32 (pos (mine' i + inside i))
    → ((j : ℕ) → (j == i) ≡ false → mine' j ≡ mine j)
    → (j : ℕ) → (if j == i then n else busy j) ≡ int32 (pos (mine' j + inside j))
busy-set busy i n mine mine' inside h e k j = at (j == i) (==→eq j i) (k j)
  where
    at :
        (b : Bool)
        → (b ≡ true → j ≡ i)
        → (b ≡ false → mine' j ≡ mine j)
        → (if b then n else busy j) ≡ int32 (pos (mine' j + inside j))
    at true same others = e ∙ ap (λ x. int32 (pos (mine' x + inside x))) (sym (same refl))
    at false same others = h j ∙ ap (λ x. int32 (pos (x + inside j))) (sym (others refl))

module _ (s : Settings) (held : ℕ) (inside : ℕ → ℕ) (asleep : ℕ) where
  -- A move that writes nothing, between two places that contribute alike.
  stay :
      (c : Counters) (p q : Pc)
      → holds p ≡ holds q
      → ((j : ℕ) → stays_in j p ≡ stays_in j q)
      → sleeps p ≡ sleeps q
      → Agree s held inside asleep c p
      → Agree s held inside asleep c q
  stay c p q e f g h = record {
    inflight = h.inflight ∙ ap (λ n. int32 (pos (n + held))) e;
    busy = λ j. h.busy j ∙ ap (λ n. int32 (pos (n + inside j))) (f j);
    delayed = h.delayed ∙ ap (λ n. pos (n + asleep)) g;
    budget = h.budget;
  }

  -- A partition counts one more.
  enter-Agree :
      (c : Counters) (p : Pc) (i : ℕ) (n : ℤ)
      → holds p ≡ 0
      → ((j : ℕ) → stays_in j p ≡ 0)
      → sleeps p ≡ 0
      → n ≡ c.busy i
      → Agree s held inside asleep c p
      → Agree s held inside asleep (set_busy c i (add32 n (pos 1))) (entered i)
  enter-Agree c p i n e f g m h = record {
    inflight = h.inflight ∙ ap (λ n. int32 (pos (n + held))) e;
    busy =
        busy-set c.busy i _ (λ j. 0) (λ j. stays_in j (entered i)) inside
          (λ j. h.busy j ∙ ap (λ n. int32 (pos (n + inside j))) (f j))
          (ap (λ z. add32 z (pos 1)) m
            ∙ one_more (c.busy i) (inside i) (h.busy i ∙ ap (λ n. int32 (pos (n + inside i))) (f i))
            ∙ ap (λ n. int32 (pos (n + inside i))) (sym (same_index i)))
          (λ j k. ground arith);
    delayed = h.delayed ∙ ap (λ n. pos (n + asleep)) g;
    budget = h.budget;
  }

  leave-Agree :
      (c : Counters) (i : ℕ)
      → Agree s held inside asleep c (leaving i)
      → Agree s held inside asleep (set_busy c i (sub32 (c.busy i) (pos 1))) idle
  leave-Agree c i h = record {
    inflight = h.inflight;
    busy =
        busy-set c.busy i _ (λ j. stays_in j (leaving i)) (λ j. 0) inside h.busy
          (one_less (c.busy i) (inside i)
            (h.busy i ∙ ap (λ n. int32 (pos (n + inside i))) (same_index i)))
          (λ j k. ground arith);
    delayed = h.delayed;
    budget = h.budget;
  }

  -- The budget has room for one more sleeper.
  reserved-held :
      (current delayed : ℤ)
      → delayed ≡ pos (0 + asleep)
      → delayed ≡ current
      → current +ℤ pos 1 ≡ pos (1 + asleep)
  unfolding ◌+ℤ◌
  reserved-held current delayed e f = ground arith

  reserved-below : (current top : ℤ) → current <ℤ top → current +ℤ pos 1 ≤ℤ top
  reserved-below current top h = omega int_laws

  woken-held :
      (delayed top : ℤ)
      → top <ℤ pos (2 ^ 31)
      → delayed ≡ pos (1 + asleep)
      → delayed ≤ℤ top
      → sub32 delayed (pos 1) ≡ pos (0 + asleep)
  unfolding sub32 int32 ◌-ℤ◌
  woken-held delayed top t e h = ground arith

  woken-below :
      (delayed n top : ℤ)
      → delayed ≡ pos (1 + asleep)
      → n ≡ pos (0 + asleep)
      → delayed ≤ℤ top
      → n ≤ℤ top
  woken-below delayed n top e f h = ground arith

  pub Move-Agree :
      (c : Counters) (p : Pc) (c' : Counters) (q : Pc)
      → s.max_delayed_threads <ℤ pos (2 ^ 31)
      → Agree s held inside asleep c p
      → Move c s p c' q
      → Agree s held inside asleep c' q
  Move-Agree c p c' q t h (resolve i) = stay c p q refl (λ j. refl) refl h
  Move-Agree c p c' q t h count = stay c p q refl (λ j. refl) refl h
  Move-Agree c p c' q t h (find_idle l) = stay c p q refl (λ j. refl) refl h
  Move-Agree c p c' q t h (find_full l) = stay c p q refl (λ j. refl) refl h
  Move-Agree c p c' q t h read_limit = stay c p q refl (λ j. refl) refl h
  Move-Agree c p c' q t h (compare_idle l) = stay c p q refl (λ j. refl) refl h
  Move-Agree c p c' q t h (compare_full l) = stay c p q refl (λ j. refl) refl h
  Move-Agree c p c' q t h (burst {i}) = enter-Agree c p i _ refl (λ j. refl) refl refl h
  Move-Agree c p c' q t h load = stay c p q refl (λ j. refl) refl h
  Move-Agree c p c' q t h read_cap = stay c p q refl (λ j. refl) refl h
  Move-Agree c p c' q t h (reject l) = stay c p q refl (λ j. refl) refl h
  Move-Agree c p c' q t h (cas_win {i} l e) = enter-Agree c p i _ refl (λ j. refl) refl (sym e) h
  Move-Agree c p c' q t h (cas_lose l) = stay c p q refl (λ j. refl) refl h
  Move-Agree c p c' q t h admit = record {
    inflight = one_more _ _ h.inflight;
    busy = h.busy;
    delayed = h.delayed;
    budget = h.budget;
  }
  Move-Agree c p c' q t h release = record {
    inflight = one_less _ _ h.inflight;
    busy = h.busy;
    delayed = h.delayed;
    budget = h.budget;
  }
  Move-Agree c p c' q t h (release_partition {i}) = leave-Agree c i h
  Move-Agree c p c' q t h (no_delay e) = stay c p q refl (λ j. refl) refl h
  Move-Agree c p c' q t h (ask e) = stay c p q refl (λ j. refl) refl h
  Move-Agree c p c' q t h (exhausted l) = stay c p q refl (λ j. refl) refl h
  Move-Agree c p c' q t h (reserve {i} {current} l e) = record {
    inflight = h.inflight;
    busy = h.busy;
    delayed = reserved-held current c.delayed_threads h.delayed e;
    budget = reserved-below current s.max_delayed_threads l;
  }
  Move-Agree c p c' q t h (reserve_lose l) = stay c p q refl (λ j. refl) refl h
  Move-Agree c p c' q t h wake =
      let n = woken-held c.delayed_threads s.max_delayed_threads t h.delayed h.budget in
      record {
        inflight = h.inflight;
        busy = h.busy;
        delayed = n;
        budget = woken-below c.delayed_threads _ s.max_delayed_threads h.delayed n h.budget;
      }
