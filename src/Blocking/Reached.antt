-- ===== src/Blocking/Reached.antt =====
-- What threads in a blocking limiter keep true, in every state that they can reach.
use limen.Base.{
  ℕ, ◌+◌, ◌≤◌, ◌≡◌, refl, ap, ◌∙◌, fun_ext, Bool, true, false, ℤ, List, ◌∷◌, ◌++◌, Option, none,
  some, sum_of, sum_of-middle, sum_of-replicate, arith, String,
}
use limen.Limiter.Guard.{SlotGuard, LimiterOps, CompletionStatus}
use limen.Blocking.Defs.{Blocking, Discipline, init}
use limen.Blocking.Orders.{occurrences, IsDiscipline}
use limen.Blocking.Threads.{
  Pc, idle, walking, answered, parked_at, collected, found, Move, asks, parks, numbers, records,
  wakes, takes, completes, locks, serves, stops, finishes, System, moves, Reach, start, later,
}
use limen.Blocking.Waiters.{waits, has_slot, Waits, Move-Waits}
use limen.Blocking.Entries.{holds, Owned, Move-Owned, entries}

-- The threads in the loop of `Unblock`.
abbrev pub walks : Pc → ℕ
walks walking = 1
walks _ = 0

abbrev pub held_by : Bool → ℕ
held_by true = 1
held_by false = 0

walks-answered : (context : String) (o : Option SlotGuard) → walks (answered context o) ≡ 0
walks-answered context none = refl
walks-answered context (some g) = refl

walks-parked_at : (o : Option ℕ) → walks (parked_at o) ≡ 0
walks-parked_at none = refl
walks-parked_at (some i) = refl

walks-collected : (o : Option SlotGuard) → walks (collected o) ≡ 0
walks-collected none = refl
walks-collected (some g) = refl

walks-found : (status : CompletionStatus) (o : Option SlotGuard) → walks (found status o) ≡ 0
walks-found status none = refl
walks-found status (some g) = refl

-- The thread's part in the mutex.
Move-walks :
    {S : Type 0} (limiter : LimiterOps S) (order : Discipline) (b b' : Blocking S) (l l' : Bool)
    (p q : Pc)
    → Move limiter order b l p b' l' q
    → walks q + held_by l ≡ walks p + held_by l'
Move-walks limiter order b b' l l' p q (asks m context) = omega (arith, walks-answered context _)
Move-walks limiter order b b' l l' p q (parks context) = omega (arith, walks-parked_at _)
Move-walks limiter order b b' l l' p q (numbers m g) = refl
Move-walks limiter order b b' l l' p q (records id g) = refl
Move-walks limiter order b b' l l' p q (wakes i) = omega (arith, walks-collected (b.slot_of i))
Move-walks limiter order b b' l l' p q (takes id status) = omega (arith, walks-found status _)
Move-walks limiter order b b' l l' p q (completes m status g) = refl
Move-walks limiter order b b' l l' p q locks = refl
Move-walks limiter order b b' l l' p q (serves e f) = refl
Move-walks limiter order b b' l l' p q (stops e f) = refl
Move-walks limiter order b b' l l' p q (finishes e) = refl

-- The sum over the other threads.
abbrev pub beside : (Pc → ℕ) → List Pc → List Pc → ℕ
beside w before behind = sum_of w before + sum_of w behind

pub split :
    (w : Pc → ℕ) (threads before behind : List Pc) (p : Pc)
    → threads ≡ before ++ p ∷ behind
    → sum_of w threads ≡ w p + beside w before behind
split w threads before behind p e = ap (sum_of w) e ∙ sum_of-middle w before behind p

module _ {S : Type 0} (limiter : LimiterOps S) (order : Discipline)
    (rules : IsDiscipline order) where
  pub record IsSafe (x : System S) : Type 0 where
    pub waiters : Waits (λ i. sum_of (waits i) x.threads) x.state
    pub owned : Owned (λ id. sum_of (holds id) x.threads) x.state
    pub mutex : sum_of walks x.threads ≡ held_by x.locked

  moves-IsSafe :
      (x : System S) (before behind : List Pc) (p : Pc) (b : Blocking S) (m : Bool) (q : Pc)
      → x.threads ≡ before ++ p ∷ behind
      → Move limiter order x.state x.locked p b m q
      → IsSafe x
      → IsSafe (record { state = b; locked = m; threads = before ++ q ∷ behind })
  moves-IsSafe x before behind p b m q e move h =
      let at = λ (w : Pc → ℕ). split w x.threads before behind p e in
      let to = λ (w : Pc → ℕ). sum_of-middle w before behind q in
      record {
        waiters = rw (fun_ext (λ i. to (waits i))) (
            Move-Waits limiter order rules (λ i. beside (waits i) before behind) x.state b x.locked
              m p q (rw (← fun_ext (λ i. at (waits i))) h.waiters) move);
        owned = rw (fun_ext (λ id. to (holds id))) (
            Move-Owned limiter order (λ id. beside (holds id) before behind) x.state b x.locked m p
              q (rw (← fun_ext (λ id. at (holds id))) h.owned) move);
        mutex = omega (
          arith,
          Move-walks limiter order x.state b x.locked m p q move,
          h.mutex,
          at walks,
          to walks,
        );
      }

  pub Reach-IsSafe : (delegate : S) (x : System S) → Reach limiter order delegate x → IsSafe x
  unfolding init
  Reach-IsSafe delegate x (start n) = record {
    waiters = record {
      served = λ i. sum_of-replicate (waits i) n idle refl;
      once = λ i. omega (arith, sum_of-replicate (waits i) n idle refl);
    };
    owned = record { bound = λ id. omega arith };
    mutex = sum_of-replicate walks n idle refl;
  }
  Reach-IsSafe delegate y (later {x} reached (moves before behind p {b} {m} {q} e move)) =
      moves-IsSafe x before behind p b m q e move (Reach-IsSafe delegate x reached)

  held_by-le : (m : Bool) → held_by m ≤ 1
  held_by-le true = omega arith
  held_by-le false = omega arith

  -- In every state that threads can reach in the blocking limiters, a step at a time, and whatever the
  -- delegate answers: the callers waiting in a frame are one at most, and such a caller either is in the
  -- queue, once, or has a slot delivered to its frame, and never both, while a frame in which nobody
  -- waits is not in the queue and has no slot. At most one thread is in the loop of `Unblock`, and an id
  -- has no more entries in `active_slots_` than threads that hold it. It is assumed of the discipline
  -- that joining adds the waiter once and leaving takes one occurrence of it away.
  pub Reach-waits :
      (delegate : S) (x : System S)
      → Reach limiter order delegate x
      → ((i : ℕ)
          → (sum_of (waits i) x.threads
              ≡ occurrences i x.state.queue + has_slot (x.state.slot_of i))
            × (sum_of (waits i) x.threads ≤ 1))
        × (sum_of walks x.threads ≤ 1)
        × ((id : ℤ) → entries id x.state.active_slots ≤ sum_of (holds id) x.threads)
  Reach-waits delegate x reached =
      let h = Reach-IsSafe delegate x reached in
      (
        λ i. (h.waiters.served i, ground (arith, h.waiters.once i)),
        omega (arith, h.mutex, held_by-le x.locked),
        h.owned.bound,
      )
