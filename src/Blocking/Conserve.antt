-- ===== src/Blocking/Conserve.antt =====
-- Each piece of the blocking limiters' operations keeps account of the delegate's slots.
use limen.Base.{
  ℕ, ◌+◌, ◌≤◌, ◌≡◌, refl, ap, ◌==◌, ltb, ltb→lt, ℤ, List, Option, none, some, String, All, sum_of,
  arith, if_elim, Bool-cases, inl, inr,
}
use limen.Limiter.Guard.{
  CompletionStatus, ignored, SlotGuard, LimiterOps, try_acquire, complete, destroy,
}
use limen.Limiter.Account.{live}
use limen.Limiter.Balance.{granted}
use limen.Blocking.Defs.{
  Waiter, Blocking, Discipline, find_slot, set_slot_of, emplace, wrap, admit, fast_path, parked_as,
  collect_slot,
}
use limen.Blocking.Slots.{
  IsFresh, AnyFresh, IsLedger, delivered, delivered_same, delivered-set, delivered-set_self,
  held_in, EntryFresh,
}

module _ {S : Type 0} (limiter : LimiterOps S) (Holds : ℕ → S → Type 0)
    (laws : IsLedger limiter Holds) where
  pub recount : (j k : ℕ) (s : S) → j ≡ k → Holds j s → Holds k s
  recount j k s e h = rw (← e) h

  abbrev pub outstanding : Blocking S → ℕ
  outstanding b = sum_of held_in b.active_slots + delivered b.next_frame b.slot_of

  -- With `k` slots out beside those that the limiter has.
  pub record Conserves (k : ℕ) (b : Blocking S) : Type 0 where
    pub held : Holds (k + outstanding b) b.delegate
    pub active_fresh : All EntryFresh b.active_slots
    pub slots_fresh : (i : ℕ) → AnyFresh (b.slot_of i)
    pub beyond : (i : ℕ) → b.next_frame ≤ i → granted (b.slot_of i) ≡ 0

  destroy-fresh :
      (s : S) (g : SlotGuard)
      → IsFresh g
      → destroy limiter s g ≡ limiter.on_slot_complete s ignored g
  unfolding destroy
  destroy-fresh s g f = rw (f.attached, f.pending) refl

  pub complete-fresh :
      (s : S) (g : SlotGuard) (status : CompletionStatus)
      → IsFresh g
      → (complete limiter s g status).0 ≡ limiter.on_slot_complete s status g
  unfolding complete
  complete-fresh s g status f = rw (f.attached, f.pending) refl

  pub emplace-Conserves :
      (k : ℕ) (b : Blocking S) (id : ℤ) (g : SlotGuard) (o : Option SlotGuard)
      → IsFresh g
      → Conserves (live g + k) b
      → Conserves k (emplace limiter id g o b)
  unfolding emplace
  emplace-Conserves k b id g none f h = record {
    held = recount _ _ _ (omega arith) h.held;
    active_fresh = (f, h.active_fresh);
    slots_fresh = h.slots_fresh;
    beyond = h.beyond;
  }
  emplace-Conserves k b id g (some old) f h = record {
    held = rw (destroy-fresh b.delegate g f) (
        laws.releases (k + outstanding b) b.delegate ignored g f
          (recount _ _ _ (omega arith) h.held));
    active_fresh = h.active_fresh;
    slots_fresh = h.slots_fresh;
    beyond = h.beyond;
  }

  wrap-Conserves :
      (b : Blocking S) (g : SlotGuard)
      → IsFresh g
      → Conserves (live g) b
      → Conserves 0 (wrap limiter g b).0
  unfolding wrap
  wrap-Conserves b g f h =
      emplace-Conserves 0 (record b { next_slot_id = _ }) b.next_slot_id g
        (find_slot b.next_slot_id b.active_slots) f
        (record {
          held = recount _ _ _ (omega arith) h.held;
          active_fresh = h.active_fresh;
          slots_fresh = h.slots_fresh;
          beyond = h.beyond;
        })

  admit-Conserves :
      (b : Blocking S) (context : String) (answer : S × Option SlotGuard)
      → try_acquire limiter b.delegate context ≡ answer
      → AnyFresh answer.1
      → Holds (granted answer.1 + outstanding b) answer.0
      → Conserves 0 b
      → Conserves 0 (admit limiter b answer).0
  unfolding admit
  admit-Conserves b context (s, none) e f k h = record {
    held = k;
    active_fresh = h.active_fresh;
    slots_fresh = h.slots_fresh;
    beyond = h.beyond;
  }
  admit-Conserves b context (s, some g) e f k h =
      wrap-Conserves (record b { delegate = s }) g f
        (record {
          held = k;
          active_fresh = h.active_fresh;
          slots_fresh = h.slots_fresh;
          beyond = h.beyond;
        })

  pub fast_path-Conserves :
      (b : Blocking S) (context : String)
      → Conserves 0 b
      → Conserves 0 (fast_path limiter b context).0
  unfolding fast_path
  fast_path-Conserves b context h =
      admit-Conserves b context (try_acquire limiter b.delegate context) refl
        (laws.issues b.delegate context)
        (laws.acquires (outstanding b) b.delegate context (recount _ _ _ (omega arith) h.held)) h

  pub set-AnyFresh :
      (slot_of : ℕ → Option SlotGuard) (i : ℕ) (o : Option SlotGuard)
      → AnyFresh o
      → ((j : ℕ) → AnyFresh (slot_of j))
      → (j : ℕ) → AnyFresh (set_slot_of slot_of i o j)
  set-AnyFresh slot_of i o f h j = if_elim AnyFresh (j == i) (λ t. f) (λ n. h j)

  pub parked_as-Conserves :
      (k : ℕ) (b : Blocking S) (o : Option (List Waiter))
      → Conserves k b
      → Conserves k (parked_as b o).0
  unfolding parked_as
  parked_as-Conserves k b none h = h
  parked_as-Conserves k b (some queue) h = record {
    held =
        recount _ _ _
          (omega (
            arith,
            delivered-set_self b.next_frame b.slot_of none,
            h.beyond b.next_frame (omega arith),
          ))
          h.held;
    active_fresh = h.active_fresh;
    slots_fresh = set-AnyFresh b.slot_of b.next_frame none tt h.slots_fresh;
    beyond = λ i le. ground (arith, h.beyond i);
  }

  -- A slot taken out of its frame is still held, by the caller.
  pub taken-held :
      (k : ℕ) (b : Blocking S) (i : ℕ) (g : SlotGuard)
      → b.slot_of i ≡ some g
      → Conserves k b
      → live g + outstanding (record b { slot_of = set_slot_of b.slot_of i none }) ≡ outstanding b
  taken-held k b i g e h = elim (Bool-cases (ltb i b.next_frame)) [
    | inl early ↦ omega (
      arith,
      ap granted e,
      delivered-set b.next_frame i b.slot_of none (ltb→lt i b.next_frame early),
    )
    | inr late ↦ omega (
      arith,
      ap granted e,
      h.beyond i (ground arith),
      delivered_same b.next_frame i b.slot_of none (ground arith),
    )
  ]

  pub collect_slot-Conserves :
      (order : Discipline) (b : Blocking S) (i : ℕ) (o : Option SlotGuard)
      → b.slot_of i ≡ o
      → AnyFresh o
      → Conserves 0 b
      → Conserves 0 (collect_slot limiter order b i o).0
  unfolding collect_slot
  collect_slot-Conserves order b i none e f h = record {
    held = h.held;
    active_fresh = h.active_fresh;
    slots_fresh = h.slots_fresh;
    beyond = h.beyond;
  }
  collect_slot-Conserves order b i (some g) e f h =
      wrap-Conserves (record b { slot_of = set_slot_of b.slot_of i none }) g f
        (record {
          held = recount _ _ _ (omega (arith, taken-held 0 b i g e h)) h.held;
          active_fresh = h.active_fresh;
          slots_fresh = set-AnyFresh b.slot_of i none tt h.slots_fresh;
          beyond = λ j le. ground (arith, h.beyond j);
        })
