-- ===== src/Blocking/Carried.antt =====
-- A step of a thread keeps account of the delegate's slots, those in local variables included.
use limen.Base.{ℕ, ◌+◌, ◌<◌, ◌≡◌, refl, ℤ, List, ◌∷◌, Option, none, some, String, arith, ap}
use limen.Limiter.Guard.{SlotGuard, LimiterOps}
use limen.Limiter.Account.{live}
use limen.Limiter.Balance.{granted}
use limen.Blocking.Defs.{Waiter, Blocking, Discipline, find_slot, parked_as, emplace}
use limen.Blocking.Orders.{occurrences}
use limen.Blocking.Slots.{IsFresh, AnyFresh, IsLedger}
use limen.Blocking.Conserve.{
  recount, Conserves, outstanding, taken-held, set-AnyFresh, emplace-Conserves, parked_as-Conserves,
}
use limen.Blocking.Threads.{
  Pc, idle, rejected, admitted, numbered, waiting, holding, taken, answered, parked_at, collected,
  leave_frame, with_delegate,
}
use limen.Blocking.Waiters.{Waits, has_slot}

-- The slot in a thread's local variable.
abbrev pub carries : Pc → ℕ
carries (admitted inner) = live inner
carries (numbered id inner) = live inner
carries (taken status inner) = live inner
carries _ = 0

abbrev pub CarriesFresh : Pc → Type 0
CarriesFresh (admitted inner) = IsFresh inner
CarriesFresh (numbered id inner) = IsFresh inner
CarriesFresh (taken status inner) = IsFresh inner
CarriesFresh _ = Unit

-- The frame at the front was handed out and has no slot yet.
pub front-open :
    {S : Type 0} (total : ℕ → ℕ) (b : Blocking S) (w : Waiter) (rest : List Waiter)
    → b.queue ≡ w ∷ rest
    → Waits total b
    → (w.frame < b.next_frame) × (has_slot (b.slot_of w.frame) ≡ 0)
front-open total b w rest e h =
    ground (arith, h.served w.frame, h.once w.frame, ap (occurrences w.frame) e)

pub granted-none : (o : Option SlotGuard) → has_slot o ≡ 0 → granted o ≡ 0
granted-none none e = refl
granted-none (some g) e = omega (arith, e)

module _ {S : Type 0} (limiter : LimiterOps S) (Holds : ℕ → S → Type 0)
    (laws : IsLedger limiter Holds) (order : Discipline) (k : ℕ) where
  -- A thread beside others that carry `k` slots.
  pub record Carries (b : Blocking S) (p : Pc) : Type 0 where
    pub account : Conserves limiter Holds laws (carries p + k) b
    pub fresh : CarriesFresh p

  pub asks-Carries :
      (b : Blocking S) (context : String) (answer : S × Option SlotGuard)
      → AnyFresh answer.1
      → Holds (granted answer.1 + (k + outstanding limiter Holds laws b)) answer.0
      → Carries b idle
      → Carries (with_delegate limiter order b answer.0) (answered context answer.1)
  asks-Carries b context (s, none) f a h = record {
    account = record {
      held = recount limiter Holds laws _ _ _ (omega arith) a;
      active_fresh = h.account.active_fresh;
      slots_fresh = h.account.slots_fresh;
      beyond = h.account.beyond;
    };
    fresh = tt;
  }
  asks-Carries b context (s, some g) f a h = record {
    account = record {
      held = recount limiter Holds laws _ _ _ (omega arith) a;
      active_fresh = h.account.active_fresh;
      slots_fresh = h.account.slots_fresh;
      beyond = h.account.beyond;
    };
    fresh = f;
  }

  pub parks-Carries :
      (b : Blocking S) (context : String) (o : Option (List Waiter))
      → Carries b (rejected context)
      → Carries (parked_as b o).0 (parked_at (parked_as b o).1)
  unfolding parked_as
  parks-Carries b context none h = record { account = h.account; fresh = tt }
  parks-Carries b context (some queue) h = record {
    account = parked_as-Conserves limiter Holds laws _ b (some queue) h.account;
    fresh = tt;
  }

  pub wakes-Carries :
      (b : Blocking S) (i : ℕ) (o : Option SlotGuard)
      → b.slot_of i ≡ o
      → AnyFresh o
      → Carries b (waiting i)
      → Carries (leave_frame order b i o) (collected o)
  unfolding leave_frame
  wakes-Carries b i none e f h = record {
    account = record {
      held = h.account.held;
      active_fresh = h.account.active_fresh;
      slots_fresh = h.account.slots_fresh;
      beyond = h.account.beyond;
    };
    fresh = tt;
  }
  wakes-Carries b i (some g) e f h = record {
    account = record {
      held =
          recount limiter Holds laws _ _ _
            (omega (arith, taken-held limiter Holds laws _ b i g e h.account)) h.account.held;
      active_fresh = h.account.active_fresh;
      slots_fresh = set-AnyFresh limiter Holds laws b.slot_of i none tt h.account.slots_fresh;
      beyond = λ j le. ground (arith, h.account.beyond j);
    };
    fresh = f;
  }

  pub records-Carries :
      (b : Blocking S) (id : ℤ) (inner : SlotGuard)
      → Carries b (numbered id inner)
      → Carries (emplace limiter id inner (find_slot id b.active_slots) b) (holding id)
  records-Carries b id inner h = record {
    account = recounted (emplace-Conserves limiter Holds laws k b id inner _ h.fresh h.account);
    fresh = tt;
  }
    where
      recounted :
          {b : Blocking S}
          → Conserves limiter Holds laws k b
          → Conserves limiter Holds laws (0 + k) b
      recounted h = record {
        held = recount limiter Holds laws _ _ _ (omega arith) h.held;
        active_fresh = h.active_fresh;
        slots_fresh = h.slots_fresh;
        beyond = h.beyond;
      }
