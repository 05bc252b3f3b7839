-- ===== src/Simple/Safety.antt =====
-- No interleaving of the threads lets more calls in than the largest limit published.
use limen.Base.{
  ℕ, suc, ◌+◌, ◌<◌, ◌^◌, ◌≡◌, refl, sym, ap, ◌∙◌, List, ◌∷◌, ◌++◌, ℤ, pos, ◌+ℤ◌, ◌≤ℤ◌, ◌<ℤ◌, leb_ℤ,
  if◌then◌else◌, sub32, sub32-int32, int32-eq_self, sum_of, sum_of-middle, sum_of-replicate, arith,
  int_laws,
}
use limen.Simple.Threads.{
  Pc, idle, capped, holding, System, Move, load, read_cap, reject, cas_win, cas_lose, release, Step,
  moves, publishes, Reach, start, later,
}

-- The slots held by a thread.
abbrev pub holds : Pc → ℕ
holds holding = 1
holds _ = 0

-- A thread has read a limit above the largest one.
abbrev pub over : ℤ → Pc → ℕ
over top (capped current cap) = if leb_ℤ cap top then 0 else 1
over top _ = 0

sub32-suc : (k : ℕ) → suc k < 2 ^ 31 → sub32 (pos (suc k)) (pos 1) ≡ pos k
sub32-suc k h =
    ap (λ z. sub32 z (pos 1)) (sym (int32-eq_self (pos (suc k)) (ground arith)))
    ∙ sub32-int32 k
    ∙ int32-eq_self (pos k) (ground arith)

pos-succ : (k : ℕ) → pos (0 + k) +ℤ pos 1 ≡ pos (1 + k)
unfolding ◌+ℤ◌
pos-succ k = grind arith

won-held :
    (current inflight : ℤ) (k : ℕ)
    → inflight ≡ pos (0 + k)
    → inflight ≡ current
    → current +ℤ pos 1 ≡ pos (1 + k)
won-held current inflight k h e = ap (λ z. z +ℤ pos 1) (sym e ∙ h) ∙ pos-succ k

within : (top bound : ℤ) → over top (capped bound bound) ≡ 0 → bound ≤ℤ top
within top bound h = ground arith

won-below : (current cap top : ℤ) → current <ℤ cap → cap ≤ℤ top → current +ℤ pos 1 ≤ℤ top
won-below current cap top h k = omega int_laws

released-held :
    (inflight top : ℤ) (k : ℕ)
    → inflight ≡ pos (1 + k)
    → inflight ≤ℤ top
    → top <ℤ pos (2 ^ 31)
    → sub32 inflight (pos 1) ≡ pos (0 + k)
released-held inflight top k h b t =
    let one_more : 1 + k ≡ suc k = omega arith in
    let shown : inflight ≡ pos (suc k) = h ∙ ap pos one_more in
    ap (λ z. sub32 z (pos 1)) shown
    ∙ sub32-suc k (fits_int inflight k shown b)
    ∙ ap pos (omega arith)
  where
    fits_int : (z : ℤ) (k : ℕ) → z ≡ pos (suc k) → z ≤ℤ top → suc k < 2 ^ 31
    fits_int z k e b = ground arith

released-below :
    (inflight n top : ℤ) (k : ℕ)
    → inflight ≡ pos (1 + k)
    → n ≡ pos (0 + k)
    → inflight ≤ℤ top
    → n ≤ℤ top
released-below inflight n top k h e b = ground arith

-- The counter after a step of one thread, with `k` slots held by the others.
record Kept (top : ℤ) (k : ℕ) (n : ℤ) (q : Pc) : Type 0 where
  held : n ≡ pos (holds q + k)
  below : n ≤ℤ top
  fits : over top q ≡ 0

Move-Kept :
    (top inflight cap_now : ℤ) (k : ℕ) (p : Pc) (n : ℤ) (q : Pc)
    → top <ℤ pos (2 ^ 31)
    → cap_now ≤ℤ top
    → Kept top k inflight p
    → Move inflight cap_now p n q
    → Kept top k n q
Move-Kept top inflight cap_now k p n q t c h load = record {
  held = h.held;
  below = h.below;
  fits = refl;
}
Move-Kept top inflight cap_now k p n q t c h read_cap = record {
  held = h.held;
  below = h.below;
  fits = ground arith;
}
Move-Kept top inflight cap_now k p n q t c h (reject r) = record {
  held = h.held;
  below = h.below;
  fits = refl;
}
Move-Kept top inflight cap_now k p n q t c h (cas_win {current} {cap} r e) = record {
  held = won-held current inflight k h.held e;
  below = won-below current cap top r (within top cap h.fits);
  fits = refl;
}
Move-Kept top inflight cap_now k p n q t c h (cas_lose r) = record {
  held = h.held;
  below = h.below;
  fits = refl;
}
Move-Kept top inflight cap_now k p n q t c h release = record {
  held = released-held inflight top k h.held h.below t;
  below =
      released-below inflight _ top k h.held (released-held inflight top k h.held h.below t)
        h.below;
  fits = refl;
}

record IsSafe (top : ℤ) (s : System) : Type 0 where
  held : s.inflight ≡ pos (sum_of holds s.threads)
  below : s.inflight ≤ℤ top
  capped_by : s.cap_now ≤ℤ top
  none_over : sum_of (over top) s.threads ≡ 0

zero_of_sum : (a b : ℕ) → a + b ≡ 0 → (a ≡ 0) × (b ≡ 0)
zero_of_sum a b e = (omega arith, omega arith)

moves-IsSafe :
    (top : ℤ) (s : System) (before behind : List Pc) (p : Pc) (n : ℤ) (q : Pc)
    → top <ℤ pos (2 ^ 31)
    → s.threads ≡ before ++ p ∷ behind
    → Move s.inflight s.cap_now p n q
    → IsSafe top s
    → IsSafe top (record s { inflight = n; threads = before ++ q ∷ behind })
moves-IsSafe top s before behind p n q t e move h =
    let others = sum_of holds before + sum_of holds behind in
    let split = ap (sum_of (over top)) e ∙ sum_of-middle (over top) before behind p in
    let (mine, rest) = zero_of_sum (over top p) _ (sym split ∙ h.none_over) in
    let k =
      Move-Kept top s.inflight s.cap_now others p n q t h.capped_by
        (record {
          held = h.held ∙ ap pos (ap (sum_of holds) e ∙ sum_of-middle holds before behind p);
          below = h.below;
          fits = mine;
        })
        move in
    record {
      held = k.held ∙ ap pos (sym (sum_of-middle holds before behind q));
      below = k.below;
      capped_by = h.capped_by;
      none_over = sum_of-middle (over top) before behind q ∙ omega (arith, k.fits, rest);
    }

Step-IsSafe :
    (top : ℤ) (s u : System) → top <ℤ pos (2 ^ 31) → Step top s u → IsSafe top s → IsSafe top u
Step-IsSafe top s u t (moves before behind p {n} {q} e move) h =
    moves-IsSafe top s before behind p n q t e move h
Step-IsSafe top s u t (publishes cap c) h = record {
  held = h.held;
  below = h.below;
  capped_by = c;
  none_over = h.none_over;
}

Reach-IsSafe :
    (top : ℤ) (s : System) → pos 0 ≤ℤ top → top <ℤ pos (2 ^ 31) → Reach top s → IsSafe top s
Reach-IsSafe top s z t (start cap n c) = record {
  held = ap pos (sym (sum_of-replicate holds n idle refl));
  below = z;
  capped_by = c;
  none_over = sum_of-replicate (over top) n idle refl;
}
Reach-IsSafe top u z t (later {s} reached step) =
    Step-IsSafe top s u t step (Reach-IsSafe top s z t reached)

-- In every state that any number of threads can reach, one access to an atomic at a time, with weak
-- exchanges that may fail and limits published in between, the counter is the number of slots held,
-- and it is at most the largest limit published. That limit is not negative and is an int.
pub Reach-bounded :
    (top : ℤ) (s : System)
    → pos 0 ≤ℤ top
    → top <ℤ pos (2 ^ 31)
    → Reach top s
    → (s.inflight ≡ pos (sum_of holds s.threads)) × (s.inflight ≤ℤ top)
Reach-bounded top s z t reached = let h = Reach-IsSafe top s z t reached in (h.held, h.below)
