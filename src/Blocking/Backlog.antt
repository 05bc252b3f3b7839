-- ===== src/Blocking/Backlog.antt =====
-- The bound on the backlog of the LIFO limiter.
use limen.Base.{
  ℕ, suc, ◌≤◌, ◌≡◌, refl, Bool, true, false, if◌then◌else◌, leb, List, [], ◌∷◌, length, Option,
  none, some, arith, if_elim, ℤ,
}
use limen.Limiter.Guard.{CompletionStatus, SlotGuard, LimiterOps, try_acquire}
use limen.Blocking.Defs.{
  Waiter, Blocking, Served, init, remove_last, lifo, set_slot_of, wrap, emplace, admit, fast_path,
  parked_as, park, collect_slot, collect, serve, unblock, mirror, on_slot_complete, find_slot,
}
use limen.Blocking.Frames.{
  Event, asks, parks, wakes, releases, completes, unblocks, World, now_parked, step, after,
}

length-remove_last : (i : ℕ) (queue : List Waiter) → length (remove_last i queue) ≤ length queue
unfolding remove_last
length-remove_last i [] = omega arith
length-remove_last i (w ∷ rest) = ground (arith, length-remove_last i rest)

module _ {S : Type 0} (limiter : LimiterOps S) where
  length-serve :
      (delegate : S) (slot_of : ℕ → Option SlotGuard) (queue : List Waiter)
      → length (serve limiter delegate slot_of queue).queue ≤ length queue
  unfolding serve
  length-serve delegate slot_of [] = omega arith
  length-serve delegate slot_of (w ∷ rest) =
      served (try_acquire limiter delegate w.context) (λ s slots. length-serve s slots rest)
    where
      served :
          (answer : S × Option SlotGuard)
          → ((s : S) (slots : ℕ → Option SlotGuard)
              → length (serve limiter s slots rest).queue ≤ length rest)
          → let r : Served S = elim answer.1 [
            | none ↦ record { delegate = answer.0; slot_of = slot_of; queue = w ∷ rest }
            | some g ↦ serve limiter answer.0 (set_slot_of slot_of w.frame (some g)) rest
          ] in
            length r.queue ≤ suc (length rest)
      served (s, none) k = omega arith
      served (s, some g) k = omega (arith, k s (set_slot_of slot_of w.frame (some g)))

module _ {S : Type 0} (limiter : LimiterOps S) (n : ℕ) where
  abbrev Bounded : Blocking S → Type 0
  Bounded b = length b.queue ≤ n

  emplace-Bounded :
      (b : Blocking S) (id : ℤ) (g : SlotGuard) (o : Option SlotGuard)
      → Bounded b
      → Bounded (emplace limiter id g o b)
  unfolding emplace
  emplace-Bounded b id g none h = h
  emplace-Bounded b id g (some old) h = h

  asks-Bounded :
      (b : Blocking S) (answer : S × Option SlotGuard)
      → Bounded b
      → Bounded (admit limiter b answer).0
  unfolding admit wrap
  asks-Bounded b (s, none) h = h
  asks-Bounded b (s, some g) h = emplace-Bounded _ _ g _ h

  mirror-Bounded :
      (b : Blocking S) (status : CompletionStatus) (id : ℤ) (o : Option SlotGuard)
      → Bounded b
      → Bounded (mirror limiter b status id o)
  unfolding mirror
  mirror-Bounded b status id none h = h
  mirror-Bounded b status id (some g) h = h

  collect-Bounded :
      (b : Blocking S) (i : ℕ) (o : Option SlotGuard)
      → Bounded b
      → Bounded (collect_slot limiter (lifo n) b i o).0
  unfolding collect_slot wrap
  collect-Bounded b i none h = omega (arith, length-remove_last i b.queue)
  collect-Bounded b i (some g) h = emplace-Bounded _ _ g _ h

  parks-Bounded :
      (waiting : ℕ → Bool) (b : Blocking S) (w : Waiter) (full : Bool)
      → leb n (length b.queue) ≡ full
      → Bounded b
      → Bounded
          (now_parked limiter
            (lifo n)
            waiting
            (parked_as b (if full then none else some (w ∷ b.queue)))).state
  unfolding now_parked parked_as
  parks-Bounded waiting b w true e h = h
  parks-Bounded waiting b w false e h = ground arith

  step-Bounded :
      (x : World S) (event : Event)
      → Bounded x.state
      → Bounded (step limiter (lifo n) x event).state
  unfolding step fast_path park collect on_slot_complete unblock
  step-Bounded x (asks context) h = asks-Bounded x.state _ h
  step-Bounded x (parks context) h =
      parks-Bounded x.waiting x.state (record { frame = x.state.next_frame; context = context }) _
        refl h
  step-Bounded x (wakes i) h =
      if_elim {A = World S} (λ y. Bounded y.state) (x.waiting i)
        (λ t. collect-Bounded x.state i (x.state.slot_of i) h) (λ f. h)
  step-Bounded x (releases status id) h = omega (
    arith,
    length-serve limiter
        (mirror limiter x.state status id (find_slot id x.state.active_slots)).delegate
        (mirror limiter x.state status id (find_slot id x.state.active_slots)).slot_of
        (mirror limiter x.state status id (find_slot id x.state.active_slots)).queue,
    mirror-Bounded x.state status id (find_slot id x.state.active_slots) h,
  )
  step-Bounded x (completes status id) h =
      mirror-Bounded x.state status id (find_slot id x.state.active_slots) h
  step-Bounded x unblocks h =
      omega (arith, length-serve limiter x.state.delegate x.state.slot_of x.state.queue, h)

  -- Whatever order the calls' pieces run in, the LIFO limiter never has more waiters than its backlog
  -- size.
  pub after-Bounded :
      (delegate : S) (history : List Event)
      → length (after limiter (lifo n) delegate history).state.queue ≤ n
  unfolding after init
  after-Bounded delegate [] = omega arith
  after-Bounded delegate (event ∷ past) =
      step-Bounded (after limiter (lifo n) delegate past) event (after-Bounded delegate past)
