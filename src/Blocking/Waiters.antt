-- ===== src/Blocking/Waiters.antt =====
-- Every caller that waits in a blocking limiter is in the queue or has a slot, whatever threads do.
use limen.Base.{
  ℕ, ◌+◌, ◌≤◌, ◌≡◌, refl, Bool, if◌then◌else◌, ◌==◌, ltb, ℤ, List, ◌∷◌, Option, none, some, String,
  arith, ap, sym,
}
use limen.Limiter.Guard.{CompletionStatus, SlotGuard, LimiterOps}
use limen.Blocking.Defs.{
  Waiter, Blocking, Discipline, find_slot, set_slot_of, emplace, park, parked_as,
}
use limen.Blocking.Orders.{IsDiscipline, occurrences}
use limen.Blocking.Threads.{
  Pc, rejected, numbered, waiting, holding, walking, answered, parked_at, collected, found,
  leave_frame, take_slot, Move, asks, parks, numbers, records, wakes, takes, completes, locks,
  serves, stops, finishes,
}

-- The threads parked in a frame.
abbrev pub waits : ℕ → Pc → ℕ
waits i (waiting j) = if j == i then 1 else 0
waits i _ = 0

abbrev pub has_slot : Option SlotGuard → ℕ
has_slot none = 0
has_slot (some inner) = 1

-- With so many threads waiting in each frame.
pub record Waits {S : Type 0} (total : ℕ → ℕ) (b : Blocking S) : Type 0 where
  pub served : (i : ℕ) → total i ≡ occurrences i b.queue + has_slot (b.slot_of i)
  pub once : (i : ℕ) → total i ≤ (if ltb i b.next_frame then 1 else 0)

waits-answered :
    (i : ℕ) (context : String) (o : Option SlotGuard) → waits i (answered context o) ≡ 0
waits-answered i context none = refl
waits-answered i context (some g) = refl

waits-found :
    (i : ℕ) (status : CompletionStatus) (o : Option SlotGuard) → waits i (found status o) ≡ 0
waits-found i status none = refl
waits-found i status (some g) = refl

module _ {S : Type 0} (limiter : LimiterOps S) (order : Discipline) (rules : IsDiscipline order)
    (others : ℕ → ℕ) where
  -- A thread beside the others.
  abbrev At : Blocking S → Pc → Type 0
  At b p = Waits (λ i. waits i p + others i) b

  -- A move between two places in which the thread does not wait, with no access to the queue.
  stay :
      (b b' : Blocking S) (p q : Pc)
      → b.queue ≡ b'.queue
      → b.slot_of ≡ b'.slot_of
      → b.next_frame ≡ b'.next_frame
      → ((i : ℕ) → waits i p ≡ waits i q)
      → At b p
      → At b' q
  stay b b' p q e f g k h = record {
    served = λ i. rw (← e, ← f, ← k i) (h.served i);
    once = λ i. rw (← g, ← k i) (h.once i);
  }

  parks-Waits :
      (b : Blocking S) (context : String) (o : Option (List Waiter))
      → order.join (record { frame = b.next_frame; context = context }) b.queue ≡ o
      → At b (rejected context)
      → At (parked_as b o).0 (parked_at (parked_as b o).1)
  unfolding parked_as
  parks-Waits b context none e h = record { served = h.served; once = h.once }
  parks-Waits b context (some queue) e h = record {
    served = λ i. ground (arith, h.served i, h.once i, rules.joins _ b.queue queue i e);
    once = λ i. ground (arith, h.once i);
  }

  wakes-Waits :
      (b : Blocking S) (i : ℕ) (o : Option SlotGuard)
      → b.slot_of i ≡ o
      → At b (waiting i)
      → At (leave_frame order b i o) (collected o)
  unfolding leave_frame
  wakes-Waits b i none e h = record {
    served = λ j. ground (arith, h.served j, h.once j, rules.leaves i j b.queue);
    once = λ j. ground (arith, h.once j);
  }
  wakes-Waits b i (some g) e h = record {
    served = λ j. ground (arith, h.served j, h.once j);
    once = λ j. ground (arith, h.once j);
  }

  emplaced :
      (b : Blocking S) (id : ℤ) (g : SlotGuard) (o : Option SlotGuard)
      → At b (numbered id g)
      → At (emplace limiter id g o b) (holding id)
  unfolding emplace
  emplaced b id g none h = record { served = h.served; once = h.once }
  emplaced b id g (some old) h = record { served = h.served; once = h.once }

  took :
      (b : Blocking S) (id : ℤ) (status : CompletionStatus) (o : Option SlotGuard)
      → At b (holding id)
      → At (take_slot b id o) (found status o)
  unfolding take_slot
  took b id status none h = record { served = h.served; once = h.once }
  took b id status (some g) h = record { served = h.served; once = h.once }

  serves-Waits :
      (b : Blocking S) (s : S) (w : Waiter) (rest : List Waiter) (g : SlotGuard)
      → b.queue ≡ w ∷ rest
      → At b walking
      → At
          (record b {
            delegate = s;
            slot_of = set_slot_of b.slot_of w.frame (some g);
            queue = rest;
          })
          walking
  serves-Waits b s w rest g e h =
      let k = λ (i : ℕ). ap (occurrences i) e in
      record { served = λ i. ground (arith, h.served i, h.once i, k i); once = λ i. h.once i }

  pub Move-Waits :
      (b b' : Blocking S) (l l' : Bool) (p q : Pc)
      → At b p
      → Move limiter order b l p b' l' q
      → At b' q
  unfolding park
  Move-Waits b b' l l' p q h (asks m context) =
      stay b b' p q refl refl refl (λ i. sym (waits-answered i context _)) h
  Move-Waits b b' l l' p q h (parks context) = parks-Waits b context _ refl h
  Move-Waits b b' l l' p q h (numbers m g) = stay b b' p q refl refl refl (λ i. refl) h
  Move-Waits b b' l l' p q h (records id g) = emplaced b id g (find_slot id b.active_slots) h
  Move-Waits b b' l l' p q h (wakes i) = wakes-Waits b i (b.slot_of i) refl h
  Move-Waits b b' l l' p q h (takes id status) = took b id status (find_slot id b.active_slots) h
  Move-Waits b b' l l' p q h (completes m status g) = stay b b' p q refl refl refl (λ i. refl) h
  Move-Waits b b' l l' p q h locks = stay b b' p q refl refl refl (λ i. refl) h
  Move-Waits b b' l l' p q h (serves {w} {rest} {s} {inner} e f) = serves-Waits b s w rest inner e h
  Move-Waits b b' l l' p q h (stops e f) = stay b b' p q refl refl refl (λ i. refl) h
  Move-Waits b b' l l' p q h (finishes e) = stay b b' p q refl refl refl (λ i. refl) h
