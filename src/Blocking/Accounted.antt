-- ===== src/Blocking/Accounted.antt =====
-- The delegate's slots, over any interleaving of threads in a blocking limiter.
use limen.Base.{
  All-middle, All-replicate, ℕ, ◌+◌, ◌≡◌, refl, Bool, List, ◌∷◌, ◌++◌, All, sum_of, sum_of-middle,
  sum_of-replicate, arith,
}
use limen.Limiter.Guard.{LimiterOps}
use limen.Blocking.Defs.{Blocking, Discipline, init}
use limen.Blocking.Orders.{IsDiscipline}
use limen.Blocking.Slots.{IsLedger, delivered, held_in}
use limen.Blocking.Conserve.{Conserves, recount}
use limen.Blocking.Threads.{Pc, idle, Move, System, moves, Reach, start, later}
use limen.Blocking.Waiters.{waits, Waits}
use limen.Blocking.Carried.{carries, CarriesFresh}
use limen.Blocking.Released.{Move-Carries}
use limen.Blocking.Reached.{beside, split}
use limen.Blocking.Reached.{Reach-IsSafe}

module _ {S : Type 0} (limiter : LimiterOps S) (Holds : ℕ → S → Type 0)
    (laws : IsLedger limiter Holds) (order : Discipline) (rules : IsDiscipline order) where
  record IsAccounted (x : System S) : Type 0 where
    account : Conserves limiter Holds laws (sum_of carries x.threads) x.state
    fresh : All CarriesFresh x.threads

  moves-IsAccounted :
      (x : System S) (before behind : List Pc) (p : Pc) (b : Blocking S) (m : Bool) (q : Pc)
      → x.threads ≡ before ++ p ∷ behind
      → Move limiter order x.state x.locked p b m q
      → Waits (λ i. sum_of (waits i) x.threads) x.state
      → IsAccounted x
      → IsAccounted (record { state = b; locked = m; threads = before ++ q ∷ behind })
  moves-IsAccounted x before behind p b m q e move w h =
      let mine : All CarriesFresh (before ++ p ∷ behind) = rw (← e) h.fresh in
      let (f, others) = All-middle CarriesFresh before behind p mine in
      let at = split carries x.threads before behind p e in
      let a =
        Move-Carries limiter Holds laws order (beside carries before behind) _ x.state b x.locked m
          p q w (record { account = rw (← at) h.account; fresh = f }) move in
      record {
        account = rw (sum_of-middle carries before behind q) a.account;
        fresh = others q a.fresh;
      }

  Reach-IsAccounted :
      (delegate : S) (x : System S)
      → Holds 0 delegate
      → Reach limiter order delegate x
      → IsAccounted x
  unfolding init
  Reach-IsAccounted delegate x h (start n) = record {
    account = record {
      held =
          recount limiter Holds laws _ _ _ (omega (arith, sum_of-replicate carries n idle refl)) h;
      active_fresh = tt;
      slots_fresh = λ i. tt;
      beyond = λ i le. refl;
    };
    fresh = All-replicate CarriesFresh n idle tt;
  }
  Reach-IsAccounted delegate y h (later {x} reached (moves before behind p {b} {m} {q} e move)) =
      moves-IsAccounted x before behind p b m q e move
        (Reach-IsSafe limiter order rules delegate x reached).waiters
        (Reach-IsAccounted delegate x h reached)

  -- In every state that threads can reach in the blocking limiters, a step at a time, the slots that the
  -- delegate counts as out are those in the threads' local variables, those in `active_slots_` and those
  -- delivered to a frame whose caller has not collected it yet. The delegate's count is a predicate that
  -- holds at zero in the beginning, and its calls change it as `IsLedger` says. It is assumed of the
  -- discipline that joining adds the waiter once and leaving takes one occurrence of it away.
  pub Reach-carries :
      (delegate : S) (x : System S)
      → Holds 0 delegate
      → Reach limiter order delegate x
      → let b = x.state in
        Holds
          (sum_of carries x.threads
            + (sum_of held_in b.active_slots + delivered b.next_frame b.slot_of))
          b.delegate
  Reach-carries delegate x h reached = (Reach-IsAccounted delegate x h reached).account.held
