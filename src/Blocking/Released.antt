-- ===== src/Blocking/Released.antt =====
-- A step of a release keeps account of the delegate's slots, and so every step does.
use limen.Base.{ℕ, ◌+◌, ◌<◌, ◌≡◌, refl, ℤ, List, Option, none, some, String, arith, Bool}
use limen.Limiter.Guard.{CompletionStatus, SlotGuard, LimiterOps, complete, try_acquire}
use limen.Limiter.Account.{live}
use limen.Limiter.Balance.{granted}
use limen.Blocking.Defs.{Waiter, Blocking, Discipline, find_slot, park, set_slot_of}
use limen.Blocking.Slots.{
  IsFresh, AnyFresh, IsLedger, erase-sum, erase-fresh, delivered-set, find-fresh,
}
use limen.Blocking.Conserve.{recount, outstanding, set-AnyFresh, complete-fresh}
use limen.Blocking.Threads.{
  Pc, idle, holding, taken, releasing, walking, found, take_slot, with_delegate, Move, asks, parks,
  numbers, records, wakes, takes, completes, locks, serves, stops, finishes,
}
use limen.Blocking.Waiters.{Waits, has_slot}
use limen.Blocking.Carried.{
  carries, granted-none, front-open, Carries, asks-Carries, parks-Carries, wakes-Carries,
  records-Carries,
}

module _ {S : Type 0} (limiter : LimiterOps S) (Holds : ℕ → S → Type 0)
    (laws : IsLedger limiter Holds) (order : Discipline) (k : ℕ) where
  abbrev pub At : Blocking S → Pc → Type 0
  At b p = Carries limiter Holds laws order k b p

  takes-Carries :
      (b : Blocking S) (id : ℤ) (status : CompletionStatus) (o : Option SlotGuard)
      → find_slot id b.active_slots ≡ o
      → AnyFresh o
      → At b (holding id)
      → At (take_slot b id o) (found status o)
  unfolding take_slot
  takes-Carries b id status none e f h = record { account = h.account; fresh = tt }
  takes-Carries b id status (some g) e f h = record {
    account = record {
      held =
          recount limiter Holds laws _ _ _ (omega (arith, erase-sum id b.active_slots g e))
            h.account.held;
      active_fresh = erase-fresh id b.active_slots h.account.active_fresh;
      slots_fresh = h.account.slots_fresh;
      beyond = h.account.beyond;
    };
    fresh = f;
  }

  completes-Carries :
      (b : Blocking S) (status : CompletionStatus) (inner : SlotGuard)
      → At b (taken status inner)
      → At (with_delegate limiter order b (complete limiter b.delegate inner status).0) releasing
  completes-Carries b status inner h = record {
    account = record {
      held = rw (complete-fresh limiter Holds laws b.delegate inner status h.fresh) (
          recount limiter Holds laws _ _ _ (omega arith) (
            laws.releases (k + outstanding limiter Holds laws b) b.delegate status inner h.fresh
              (recount limiter Holds laws _ _ _ (omega arith) h.account.held)));
      active_fresh = h.account.active_fresh;
      slots_fresh = h.account.slots_fresh;
      beyond = h.account.beyond;
    };
    fresh = tt;
  }

  serves-Carries :
      (b : Blocking S) (s : S) (w : Waiter) (rest : List Waiter) (inner : SlotGuard)
      → (w.frame < b.next_frame) × (has_slot (b.slot_of w.frame) ≡ 0)
      → IsFresh inner
      → Holds (live inner + (k + outstanding limiter Holds laws b)) s
      → At b walking
      → At
          (record b {
            delegate = s;
            slot_of = set_slot_of b.slot_of w.frame (some inner);
            queue = rest;
          })
          walking
  serves-Carries b s w rest inner (lt, n) f a h = record {
    account = record {
      held =
          recount limiter Holds laws _ _ _
            (omega (
              arith,
              delivered-set b.next_frame w.frame b.slot_of (some inner) lt,
              granted-none (b.slot_of w.frame) n,
            ))
            a;
      active_fresh = h.account.active_fresh;
      slots_fresh =
          set-AnyFresh limiter Holds laws b.slot_of w.frame (some inner) f h.account.slots_fresh;
      beyond = λ j le. ground (arith, h.account.beyond j);
    };
    fresh = tt;
  }

  -- What the delegate answers, from the account of a thread that carries nothing.
  answer-held :
      (b : Blocking S) (context : String) (p : Pc) (answer : S × Option SlotGuard)
      → try_acquire limiter b.delegate context ≡ answer
      → carries p ≡ 0
      → At b p
      → AnyFresh answer.1
        × Holds (granted answer.1 + (k + outstanding limiter Holds laws b)) answer.0
  answer-held b context p answer e n h = rw (← e) (
    laws.issues b.delegate context,
    laws.acquires (k + outstanding limiter Holds laws b) b.delegate context
        (recount limiter Holds laws _ _ _ (omega (arith, n)) h.account.held),
  )

  pub Move-Carries :
      (total : ℕ → ℕ) (b b' : Blocking S) (l l' : Bool) (p q : Pc)
      → Waits total b
      → At b p
      → Move limiter order b l p b' l' q
      → At b' q
  unfolding park
  Move-Carries total b b' l l' p q w h (asks m context) =
      let (f, a) = answer-held b context idle _ refl refl h in
      asks-Carries limiter Holds laws order k b context (try_acquire limiter b.delegate context) f a
        h
  Move-Carries total b b' l l' p q w h (parks context) =
      parks-Carries limiter Holds laws order k b context _ h
  Move-Carries total b b' l l' p q w h (numbers m inner) = record {
    account = record {
      held = h.account.held;
      active_fresh = h.account.active_fresh;
      slots_fresh = h.account.slots_fresh;
      beyond = h.account.beyond;
    };
    fresh = h.fresh;
  }
  Move-Carries total b b' l l' p q w h (records id inner) =
      records-Carries limiter Holds laws order k b id inner h
  Move-Carries total b b' l l' p q w h (wakes i) =
      wakes-Carries limiter Holds laws order k b i (b.slot_of i) refl (h.account.slots_fresh i) h
  Move-Carries total b b' l l' p q w h (takes id status) =
      takes-Carries b id status _ refl (find-fresh id b.active_slots h.account.active_fresh) h
  Move-Carries total b b' l l' p q w h (completes m status inner) =
      completes-Carries b status inner h
  Move-Carries total b b' l l' p q w h locks = record { account = h.account; fresh = tt }
  Move-Carries total b b' l l' p q w h (serves {w = v} {rest} {s} {inner} e f) =
      let (fresh, held) = answer-held b v.context walking (s, some inner) f refl h in
      serves-Carries b s v rest inner (front-open total b v rest e w) fresh held h
  Move-Carries total b b' l l' p q w h (stops {w = v} {s = s} e f) =
      let (fresh, held) = answer-held b v.context walking (s, none) f refl h in
      record {
        account = record {
          held = recount limiter Holds laws _ _ _ (omega arith) held;
          active_fresh = h.account.active_fresh;
          slots_fresh = h.account.slots_fresh;
          beyond = h.account.beyond;
        };
        fresh = tt;
      }
  Move-Carries total b b' l l' p q w h (finishes e) = record { account = h.account; fresh = tt }
