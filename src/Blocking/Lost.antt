-- ===== src/Blocking/Lost.antt =====
-- A release between a caller's rejection and its parking wakes nobody.
use limen.Base.{ℕ, ◌≡◌, refl, true, ℤ, [], ◌∷◌, Option, none, some, String, arith, ap}
use limen.Limiter.Guard.{CompletionStatus, SlotGuard, LimiterOps, try_acquire, complete}
use limen.Blocking.Defs.{
  Waiter, Blocking, Discipline, set_slot_of, find_slot, erase, admit, fast_path, parked_as, park,
  collect_slot, collect, serve, unblock, mirror, on_slot_complete,
}
use limen.Blocking.Frames.{is_none}
use limen.Blocking.Progress.{IsCounted}

module _ {S : Type 0} (limiter : LimiterOps S) where
  -- A caller asks the delegate, another call completes, and then the caller parks.
  abbrev pub race : Discipline → Blocking S → String → CompletionStatus → ℤ → Blocking S × Option ℕ
  race order b context status id =
      park order (on_slot_complete limiter (fast_path limiter b context).0 status id) context

  admit-none :
      (b : Blocking S) (answer : S × Option SlotGuard)
      → is_none answer.1 ≡ true
      → admit limiter b answer ≡ (record b { delegate = answer.0 }, none)
  unfolding admit
  admit-none b (s, none) e = refl
  admit-none b (s, some g) e = cc

  set_slot_of_self : (slot_of : ℕ → Option SlotGuard) (i : ℕ) → set_slot_of slot_of i none i ≡ none
  set_slot_of_self slot_of i = ground arith

  -- With nobody in the queue, a release only takes the slot's entry away and completes it.
  abbrev completed : Blocking S → SlotGuard → CompletionStatus → ℤ → Blocking S
  completed b g status id = record b {
    active_slots = erase id b.active_slots;
    delegate = (complete limiter b.delegate g status).0;
    queue = [];
  }

  release-empty :
      (b : Blocking S) (g : SlotGuard) (status : CompletionStatus) (id : ℤ)
      → b.queue ≡ []
      → find_slot id b.active_slots ≡ some g
      → on_slot_complete limiter b status id ≡ completed b g status id
  unfolding on_slot_complete mirror unblock serve
  release-empty b g status id q e = rw (e, q) refl

  module _ (order : Discipline) (Free : ℕ → S → Type 0) where
    -- The caller sleeps in a queue of its own although a slot is free, and gets none at the timeout.
    pub record IsLost (b : Blocking S) (context : String) (r : Blocking S × Option ℕ) : Type 0 where
      pub rejected : (fast_path limiter b context).1 ≡ none
      pub sleeps : r.1 ≡ some b.next_frame
      pub waits : r.0.queue ≡ record { frame = b.next_frame; context = context } ∷ []
      pub free : Free 1 r.0.delegate
      pub timed_out : (collect limiter order r.0 b.next_frame).1 ≡ none

    IsLost-at :
        (b : Blocking S) (context : String) (g : SlotGuard) (status : CompletionStatus) (id : ℤ)
        (s : S)
        → (fast_path limiter b context).1 ≡ none
        → Free 1 (complete limiter s g status).0
        → IsLost b context (
            parked_as
              (completed (record b { delegate = s }) g status id)
              (some (record { frame = b.next_frame; context = context } ∷ [])))
    unfolding parked_as collect collect_slot
    IsLost-at b context g status id s r f =
        let w : Waiter = record { frame = b.next_frame; context = context } in
        let b' =
          (parked_as (completed (record b { delegate = s }) g status id) (some (w ∷ []))).0 in
        record {
          rejected = r;
          sleeps = refl;
          waits = refl;
          free = f;
          timed_out =
              ap (λ o. (collect_slot limiter order b' b.next_frame o).1)
                (set_slot_of_self b.slot_of b.next_frame);
        }

    -- With no slot free and nobody in the queue, let a caller be rejected by the delegate, then another
    -- call complete, which frees a slot, and then the caller park: it sleeps although a slot is free,
    -- and when its wait ends by the timeout it gets none. The delegate admits a call exactly while a
    -- slot is free, and the first waiter may join the queue.
    pub race-IsLost :
        IsCounted limiter Free
        → (b : Blocking S) (g : SlotGuard) (context : String) (status : CompletionStatus) (id : ℤ)
        → Free 0 b.delegate
        → b.queue ≡ []
        → find_slot id b.active_slots ≡ some g
        → ((s : S) → Free 0 s → Free 1 (complete limiter s g status).0)
        → ((w : Waiter) → order.join w [] ≡ some (w ∷ []))
        → IsLost b context (race order b context status id)
    unfolding fast_path park
    race-IsLost laws b g context status id f q e frees joins =
        let (n, f') = laws.rejects b.delegate context f in
        let s = (try_acquire limiter b.delegate context).0 in
        let asked = admit-none b (try_acquire limiter b.delegate context) n in
        let freed = release-empty (record b { delegate = s }) g status id q e in
        rw asked (
          rw freed
            (rw joins (IsLost-at b context g status id s (ap (λ r. r.1) asked) (frees s f'))))
