-- ===== src/Blocking/Handover.antt =====
-- A release of a slot: the completion of the delegate's guard and the loop of `Unblock` keep account of
-- the delegate's slots.
use limen.Base.{
  ℕ, ◌+◌, ◌≤◌, ◌<◌, ◌≡◌, refl, Bool, true, ℤ, List, [], ◌∷◌, Option, none, some, sum_of, arith,
}
use limen.Limiter.Guard.{CompletionStatus, SlotGuard, LimiterOps, try_acquire}
use limen.Limiter.Account.{live}
use limen.Limiter.Balance.{granted}
use limen.Blocking.Defs.{Waiter, Blocking, Served, find_slot, set_slot_of, serve, unblock, mirror}
use limen.Blocking.Frames.{is_none, Fits, Fits-front, Fits-tail}
use limen.Blocking.Slots.{
  IsFresh, AnyFresh, IsLedger, delivered, delivered-set, held_in, erase-sum, erase-fresh,
}
use limen.Blocking.Conserve.{recount, set-AnyFresh, complete-fresh, Conserves}

module _ {S : Type 0} (limiter : LimiterOps S) (Holds : ℕ → S → Type 0)
    (laws : IsLedger limiter Holds) where
  -- What the loop of `Unblock` keeps, with `m` slots in `active_slots_`.
  record Serving (m next : ℕ) (delegate : S) (slot_of : ℕ → Option SlotGuard) : Type 0 where
    held : Holds (m + delivered next slot_of) delegate
    slots_fresh : (i : ℕ) → AnyFresh (slot_of i)
    beyond : (i : ℕ) → next ≤ i → granted (slot_of i) ≡ 0

  pub not_there : (o : Option SlotGuard) → is_none o ≡ true → granted o ≡ 0
  not_there none e = refl
  not_there (some g) e = cc

  hand-Serving :
      (m next : ℕ) (s : S) (slot_of : ℕ → Option SlotGuard) (i : ℕ) (g : SlotGuard)
      → i < next
      → is_none (slot_of i) ≡ true
      → IsFresh g
      → Holds (live g + (m + delivered next slot_of)) s
      → ((j : ℕ) → AnyFresh (slot_of j))
      → ((j : ℕ) → next ≤ j → granted (slot_of j) ≡ 0)
      → Serving m next s (set_slot_of slot_of i (some g))
  hand-Serving m next s slot_of i g lt n f k fresh beyond = record {
    held =
        recount limiter Holds laws _ _ _
          (omega (arith, delivered-set next i slot_of (some g) lt, not_there (slot_of i) n)) k;
    slots_fresh = set-AnyFresh limiter Holds laws slot_of i (some g) f fresh;
    beyond = λ j le. ground (arith, beyond j);
  }

  serve-Serving :
      (waiting : ℕ → Bool) (m next : ℕ) (s : S) (slot_of : ℕ → Option SlotGuard)
      (queue : List Waiter)
      → Fits waiting next slot_of queue
      → Serving m next s slot_of
      → let r = serve limiter s slot_of queue in Serving m next r.delegate r.slot_of
  unfolding serve
  serve-Serving waiting m next s slot_of [] h k = k
  serve-Serving waiting m next s slot_of (w ∷ rest) h k =
      served (try_acquire limiter s w.context) (laws.issues s w.context)
        (laws.acquires (m + delivered next slot_of) s w.context k.held)
        (λ s slots. serve-Serving waiting m next s slots rest)
    where
      served :
          (answer : S × Option SlotGuard)
          → AnyFresh answer.1
          → Holds (granted answer.1 + (m + delivered next slot_of)) answer.0
          → ((s : S) (slots : ℕ → Option SlotGuard)
              → Fits waiting next slots rest
              → Serving m next s slots
              → let r = serve limiter s slots rest in Serving m next r.delegate r.slot_of)
          → let r : Served S = elim answer.1 [
            | none ↦ record { delegate = answer.0; slot_of = slot_of; queue = w ∷ rest }
            | some g ↦ serve limiter answer.0 (set_slot_of slot_of w.frame (some g)) rest
          ] in
            Serving m next r.delegate r.slot_of
      served (s', none) f a ih = record {
        held = recount limiter Holds laws _ _ _ (omega arith) a;
        slots_fresh = k.slots_fresh;
        beyond = k.beyond;
      }
      served (s', some g) f a ih =
          let (lt, n) = Fits-front waiting next slot_of w rest h in
          ih s' (set_slot_of slot_of w.frame (some g)) (Fits-tail waiting next slot_of w rest g h)
            (hand-Serving m next s' slot_of w.frame g lt n f a k.slots_fresh k.beyond)

  pub mirror-Conserves :
      (b : Blocking S) (status : CompletionStatus) (id : ℤ) (o : Option SlotGuard)
      → find_slot id b.active_slots ≡ o
      → AnyFresh o
      → Conserves limiter Holds laws 0 b
      → Conserves limiter Holds laws 0 (mirror limiter b status id o)
  unfolding mirror
  mirror-Conserves b status id none e f h = h
  mirror-Conserves b status id (some g) e f h = record {
    held = rw (complete-fresh limiter Holds laws b.delegate g status f) (
        laws.releases _ b.delegate status g f (
          recount limiter Holds laws _ _ _ (omega (arith, erase-sum id b.active_slots g e))
            h.held));
    active_fresh = erase-fresh id b.active_slots h.active_fresh;
    slots_fresh = h.slots_fresh;
    beyond = h.beyond;
  }

  pub unblock-Conserves :
      (waiting : ℕ → Bool) (b : Blocking S)
      → Fits waiting b.next_frame b.slot_of b.queue
      → Conserves limiter Holds laws 0 b
      → Conserves limiter Holds laws 0 (unblock limiter b)
  unfolding unblock
  unblock-Conserves waiting b h c =
      let k =
        serve-Serving waiting (sum_of held_in b.active_slots) b.next_frame b.delegate b.slot_of
          b.queue h
          (record {
            held = recount limiter Holds laws _ _ _ (omega arith) c.held;
            slots_fresh = c.slots_fresh;
            beyond = c.beyond;
          }) in
      record {
        held = recount limiter Holds laws _ _ _ (omega arith) k.held;
        active_fresh = c.active_fresh;
        slots_fresh = k.slots_fresh;
        beyond = k.beyond;
      }
