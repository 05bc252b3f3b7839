-- ===== src/Blocking/Frames.antt =====
-- Waiters stand on their callers' stacks: no waiter stays in the queue after its caller has returned.
use limen.Base.{
  ℕ, ◌≤◌, ◌≡◌, refl, Bool, true, false, ◌&&◌, if◌then◌else◌, ltb, ℤ, List, [], ◌∷◌, Option, none,
  some, String, arith, if_elim, ◌<◌,
}
use limen.Limiter.Guard.{CompletionStatus, SlotGuard, LimiterOps, try_acquire}
use limen.Blocking.Defs.{
  Waiter, Blocking, Discipline, Served, init, set_slot_of, wrap, emplace, admit, fast_path,
  parked_as, park, collect_slot, collect, serve, unblock, mirror, on_slot_complete, find_slot,
}
use limen.Blocking.Orders.{occurrences, IsDiscipline}

-- The pieces of concurrent calls, in any order that threads may run them: a call of the delegate, the
-- parking of a caller, its return from the wait, whether notified or not, and a release.
pub data Event : Type 0 where
  asks : String → Event
  parks : String → Event
  wakes : ℕ → Event
  releases : CompletionStatus → ℤ → Event
  -- a release as its two parts, which others may come between
  completes : CompletionStatus → ℤ → Event
  unblocks : Event

-- The limiter, and the frames whose callers wait.
pub record World (S : Type 0) : Type 0 where
  pub state : Blocking S
  pub waiting : ℕ → Bool

abbrev pub is_none : {A : Type 0} → Option A → Bool
is_none none = true
is_none (some a) = false

-- A frame whose caller waits, with no slot delivered yet, and that was handed out.
abbrev pub open_frame : (ℕ → Bool) → ℕ → (ℕ → Option SlotGuard) → ℕ → ℕ
open_frame waiting next slot_of i = if waiting i && is_none (slot_of i) && ltb i next then 1 else 0

pub record Fits (waiting : ℕ → Bool) (next : ℕ) (slot_of : ℕ → Option SlotGuard)
    (queue : List Waiter) : Type 0 where
  pub bound : (i : ℕ) → occurrences i queue ≤ open_frame waiting next slot_of i

-- The frame at the front of the queue is open.
pub Fits-front :
    (waiting : ℕ → Bool) (next : ℕ) (slot_of : ℕ → Option SlotGuard) (w : Waiter)
    (rest : List Waiter)
    → Fits waiting next slot_of (w ∷ rest)
    → (w.frame < next) × (is_none (slot_of w.frame) ≡ true)
Fits-front waiting next slot_of w rest h = ground (arith, h.bound w.frame)

-- When it is given a slot and leaves, the others still fit.
pub Fits-tail :
    (waiting : ℕ → Bool) (next : ℕ) (slot_of : ℕ → Option SlotGuard) (w : Waiter)
    (rest : List Waiter) (g : SlotGuard)
    → Fits waiting next slot_of (w ∷ rest)
    → Fits waiting next (set_slot_of slot_of w.frame (some g)) rest
Fits-tail waiting next slot_of w rest g h = record { bound = λ i. ground (arith, h.bound i) }

module _ {S : Type 0} (limiter : LimiterOps S) (order : Discipline) where
  unfoldable pub now_parked : (ℕ → Bool) → Blocking S × Option ℕ → World S
  now_parked waiting (b, none) = record { state = b; waiting = waiting }
  now_parked waiting (b, some i) = record { state = b; waiting = set_slot_of waiting i true }

  -- Only a caller that waits can return from its wait.
  unfoldable pub step : World S → Event → World S
  step x (asks context) = record x { state = (fast_path limiter x.state context).0 }
  step x (parks context) = now_parked x.waiting (park order x.state context)
  step x (wakes i) =
      if x.waiting i
      then record {
        state = (collect limiter order x.state i).0;
        waiting = set_slot_of x.waiting i false;
      }
      else x
  step x (releases status id) = record x { state = on_slot_complete limiter x.state status id }
  step x (completes status id) = record x {
    state = mirror limiter x.state status id (find_slot id x.state.active_slots);
  }
  step x unblocks = record x { state = unblock limiter x.state }

  unfoldable pub after : S → List Event → World S
  after delegate [] = record { state = init delegate; waiting = λ i. false }
  after delegate (event ∷ past) = step (after delegate past) event

  abbrev pub Sound : World S → Type 0
  Sound x = Fits x.waiting x.state.next_frame x.state.slot_of x.state.queue

  serve-Fits :
      (waiting : ℕ → Bool) (next : ℕ) (delegate : S) (slot_of : ℕ → Option SlotGuard)
      (queue : List Waiter)
      → Fits waiting next slot_of queue
      → let r = serve limiter delegate slot_of queue in Fits waiting next r.slot_of r.queue
  unfolding serve
  serve-Fits waiting next delegate slot_of [] h = h
  serve-Fits waiting next delegate slot_of (w ∷ rest) h =
      served (try_acquire limiter delegate w.context)
        (λ s slots. serve-Fits waiting next s slots rest)
    where
      served :
          (answer : S × Option SlotGuard)
          → ((s : S) (slots : ℕ → Option SlotGuard)
              → Fits waiting next slots rest
              → let r = serve limiter s slots rest in Fits waiting next r.slot_of r.queue)
          → let r : Served S = elim answer.1 [
            | none ↦ record { delegate = answer.0; slot_of = slot_of; queue = w ∷ rest }
            | some g ↦ serve limiter answer.0 (set_slot_of slot_of w.frame (some g)) rest
          ] in
            Fits waiting next r.slot_of r.queue
      served (s, none) k = h
      served (s, some g) k =
          k s (set_slot_of slot_of w.frame (some g)) (Fits-tail waiting next slot_of w rest g h)

  emplace-Fits :
      (waiting : ℕ → Bool) (b : Blocking S) (id : ℤ) (g : SlotGuard) (o : Option SlotGuard)
      → Fits waiting b.next_frame b.slot_of b.queue
      → let b' = emplace limiter id g o b in Fits waiting b'.next_frame b'.slot_of b'.queue
  unfolding emplace
  emplace-Fits waiting b id g none h = h
  emplace-Fits waiting b id g (some old) h = h

  asks-Fits :
      (waiting : ℕ → Bool) (b : Blocking S) (answer : S × Option SlotGuard)
      → Fits waiting b.next_frame b.slot_of b.queue
      → let b' = (admit limiter b answer).0 in Fits waiting b'.next_frame b'.slot_of b'.queue
  unfolding admit wrap
  asks-Fits waiting b (s, none) h = h
  asks-Fits waiting b (s, some g) h = emplace-Fits waiting _ _ g _ h

  pub mirror-Fits :
      (waiting : ℕ → Bool) (b : Blocking S) (status : CompletionStatus) (id : ℤ)
      (o : Option SlotGuard)
      → Fits waiting b.next_frame b.slot_of b.queue
      → let b' = mirror limiter b status id o in Fits waiting b'.next_frame b'.slot_of b'.queue
  unfolding mirror
  mirror-Fits waiting b status id none h = h
  mirror-Fits waiting b status id (some g) h = h

module _ {S : Type 0} (limiter : LimiterOps S) (order : Discipline)
    (laws : IsDiscipline order) where
  parks-Fits :
      (waiting : ℕ → Bool) (b : Blocking S) (context : String) (o : Option (List Waiter))
      → order.join (record { frame = b.next_frame; context = context }) b.queue ≡ o
      → Fits waiting b.next_frame b.slot_of b.queue
      → Sound limiter order (now_parked limiter order waiting (parked_as b o))
  unfolding parked_as now_parked
  parks-Fits waiting b context none e h = h
  parks-Fits waiting b context (some queue) e h = record {
    bound = λ i. ground (
      arith,
      laws.joins (record { frame = b.next_frame; context = context }) b.queue queue i e,
      h.bound i,
    );
  }

  collects-Fits :
      (waiting : ℕ → Bool) (b : Blocking S) (i : ℕ) (o : Option SlotGuard)
      → b.slot_of i ≡ o
      → Fits waiting b.next_frame b.slot_of b.queue
      → let b' = (collect_slot limiter order b i o).0 in
        Fits (set_slot_of waiting i false) b'.next_frame b'.slot_of b'.queue
  unfolding collect_slot wrap
  collects-Fits waiting b i none e h = record {
    bound = λ j. ground (arith, laws.leaves i j b.queue, h.bound j);
  }
  collects-Fits waiting b i (some g) e h =
      emplace-Fits limiter order _ _ _ g _ (record { bound = λ j. ground (arith, h.bound j) })

  step-Sound :
      (x : World S) (event : Event)
      → Sound limiter order x
      → Sound limiter order (step limiter order x event)
  unfolding step fast_path park collect on_slot_complete unblock
  step-Sound x (asks context) h =
      asks-Fits limiter order x.waiting x.state (try_acquire limiter x.state.delegate context) h
  step-Sound x (parks context) h = parks-Fits x.waiting x.state context _ refl h
  step-Sound x (wakes i) h =
      if_elim (Sound limiter order) (x.waiting i)
        (λ t. collects-Fits x.waiting x.state i (x.state.slot_of i) refl h) (λ f. h)
  step-Sound x (releases status id) h =
      serve-Fits limiter order x.waiting _ _ _ _ (
        mirror-Fits limiter order x.waiting x.state status id (find_slot id x.state.active_slots) h)
  step-Sound x (completes status id) h =
      mirror-Fits limiter order x.waiting x.state status id (find_slot id x.state.active_slots) h
  step-Sound x unblocks h = serve-Fits limiter order x.waiting _ _ _ _ h

  pub after-Sound :
      (delegate : S) (history : List Event)
      → Sound limiter order (after limiter order delegate history)
  unfolding after init
  after-Sound delegate [] = record { bound = λ i. omega arith }
  after-Sound delegate (event ∷ past) =
      step-Sound (after limiter order delegate past) event (after-Sound delegate past)

  -- Whatever order the calls' pieces run in, a frame is in the queue at most once, and not at all
  -- unless its caller waits and has no slot yet: no waiter outlives its caller. It is assumed of the
  -- discipline that joining adds the waiter once and leaving takes one occurrence of it away.
  pub after-occurrences :
      (delegate : S) (history : List Event) (i : ℕ)
      → let x = after limiter order delegate history in
        occurrences i x.state.queue ≤ (if x.waiting i && is_none (x.state.slot_of i) then 1 else 0)
  after-occurrences delegate history i =
      let h = after-Sound delegate history in ground (arith, h.bound i)
