-- ===== src/Blocking/Defs.antt =====
-- The state that both blocking limiters keep, and the pieces of their operations that run under `mu_`
-- or between two accesses to it. They differ in where a waiter joins the queue and leaves it.
use limen.Base.{
  ℕ, suc, Bool, true, false, if◌then◌else◌, ◌==◌, leb, ℤ, pos, add32, eqb_ℤ, List, [], ◌∷◌, ◌++◌,
  Option, none, some, String, length,
}
use limen.Limiter.Guard.{
  CompletionStatus, SlotGuard, make_slot, LimiterOps, try_acquire, complete, destroy,
}

-- A `WaiterSlot` in the queue: the frame it stands in, by number, and the context.
pub record Waiter : Type 0 where
  pub frame : ℕ
  pub context : String

-- The limiter over a delegate with state `S`. `slot_of` has the `slot` field of each frame.
pub record Blocking (S : Type 0) : Type 0 where
  pub delegate : S
  pub queue : List Waiter
  pub active_slots : List (ℤ × SlotGuard)
  pub next_slot_id : ℤ
  pub slot_of : ℕ → Option SlotGuard
  pub next_frame : ℕ

-- How a waiter joins the queue, if it may, and how it takes itself out after a timeout.
pub record Discipline : Type 0 where
  pub join : Waiter → List Waiter → Option (List Waiter)
  pub leave : ℕ → List Waiter → List Waiter

-- The scan from the front.
unfoldable pub remove_first : ℕ → List Waiter → List Waiter
remove_first i [] = []
remove_first i (w ∷ rest) =
    let others = remove_first i rest in if w.frame == i then rest else w ∷ others

-- Whether a scan finds the frame.
unfoldable pub is_parked : ℕ → List Waiter → Bool
is_parked i [] = false
is_parked i (w ∷ rest) = let found = is_parked i rest in if w.frame == i then true else found

-- The scan from the back.
unfoldable pub remove_last : ℕ → List Waiter → List Waiter
remove_last i [] = []
remove_last i (w ∷ rest) =
    let others = remove_last i rest in
    if is_parked i rest then w ∷ others else (if w.frame == i then rest else w ∷ others)

abbrev pub fifo : Discipline
fifo = record { join = λ w queue. some (queue ++ w ∷ []); leave = remove_first }

-- The backlog is bounded, and the latest arrival is at the front.
abbrev pub lifo : ℕ → Discipline
lifo backlog_size = record {
  join = λ w queue. if leb backlog_size (length queue) then none else some (w ∷ queue);
  leave = remove_last;
}

-- The lookup in `active_slots_`, and the erasure of the entry found.
unfoldable pub find_slot : ℤ → List (ℤ × SlotGuard) → Option SlotGuard
find_slot id [] = none
find_slot id (entry ∷ rest) =
    let other = find_slot id rest in if eqb_ℤ entry.0 id then some entry.1 else other

unfoldable pub erase : ℤ → List (ℤ × SlotGuard) → List (ℤ × SlotGuard)
erase id [] = []
erase id (entry ∷ rest) =
    let others = erase id rest in if eqb_ℤ entry.0 id then rest else entry ∷ others

abbrev pub set_slot_of : {A : Type 0} → (ℕ → A) → ℕ → A → ℕ → A
set_slot_of slot_of i v j = if j == i then v else slot_of j

module _ {S : Type 0} where
  unfoldable pub init : S → Blocking S
  init delegate = record {
    delegate = delegate;
    queue = [];
    active_slots = [];
    next_slot_id = pos 0;
    slot_of = λ i. none;
    next_frame = 0;
  }

  -- The caller that was rejected parks in a new frame, unless the backlog is full.
  unfoldable pub parked_as : Blocking S → Option (List Waiter) → Blocking S × Option ℕ
  parked_as b none = (b, none)
  parked_as b (some queue) = (
    record b {
      queue = queue;
      next_frame = suc b.next_frame;
      slot_of = set_slot_of b.slot_of b.next_frame none;
    },
    some b.next_frame,
  )

  unfoldable pub park : Discipline → Blocking S → String → Blocking S × Option ℕ
  park order b context =
      parked_as b (order.join (record { frame = b.next_frame; context = context }) b.queue)

-- What `Unblock` changes in its loop: the delegate, the frames' slots and the queue.
pub record Served (S : Type 0) : Type 0 where
  pub delegate : S
  pub slot_of : ℕ → Option SlotGuard
  pub queue : List Waiter

module _ {S : Type 0} (limiter : LimiterOps S) where
  -- `active_slots_.emplace`: where the id is taken, by a slot that has been held while the counter went
  -- round, the old entry stays and the new guard is destroyed.
  unfoldable pub emplace : ℤ → SlotGuard → Option SlotGuard → Blocking S → Blocking S
  emplace id g none b = record b { active_slots = (id, g) ∷ b.active_slots }
  emplace id g (some old) b = record b { delegate = destroy limiter b.delegate g }

  -- An inner slot becomes an outer one that carries the id.
  unfoldable pub wrap : SlotGuard → Blocking S → Blocking S × SlotGuard
  wrap inner b = (
    emplace b.next_slot_id inner (find_slot b.next_slot_id b.active_slots)
        (record b { next_slot_id = add32 b.next_slot_id (pos 1) }),
    make_slot (pos 0) (pos 0) false b.next_slot_id,
  )

  -- The fast path, from the delegate's answer.
  unfoldable pub admit : Blocking S → S × Option SlotGuard → Blocking S × Option SlotGuard
  admit b (delegate, none) = (record b { delegate = delegate }, none)
  admit b (delegate, some inner) =
      let (b', outer) = wrap inner (record b { delegate = delegate }) in (b', some outer)

  -- After the wait, notified or not: a slot that was delivered is wrapped, and otherwise the caller
  -- takes its waiter out of the queue.
  unfoldable pub collect_slot :
      Discipline → Blocking S → ℕ → Option SlotGuard → Blocking S × Option SlotGuard
  collect_slot order b i none = (record b { queue = order.leave i b.queue }, none)
  collect_slot order b i (some delivered) =
      let (b', outer) = wrap delivered (record b { slot_of = set_slot_of b.slot_of i none }) in
      (b', some outer)

  unfoldable pub collect : Discipline → Blocking S → ℕ → Blocking S × Option SlotGuard
  collect order b i = collect_slot order b i (b.slot_of i)

  unfoldable pub fast_path : Blocking S → String → Blocking S × Option SlotGuard
  fast_path b context = admit b (try_acquire limiter b.delegate context)

  unfoldable pub serve : S → (ℕ → Option SlotGuard) → List Waiter → Served S
  serve delegate slot_of [] = record { delegate = delegate; slot_of = slot_of; queue = [] }
  serve delegate slot_of (w ∷ rest) =
      let (delegate', inner) = try_acquire limiter delegate w.context in
      elim inner [
        | none ↦ record { delegate = delegate'; slot_of = slot_of; queue = w ∷ rest }
        | some g ↦ serve delegate' (set_slot_of slot_of w.frame (some g)) rest
      ]

  unfoldable pub unblock : Blocking S → Blocking S
  unblock b =
      let served = serve b.delegate b.slot_of b.queue in
      record b { delegate = served.delegate; slot_of = served.slot_of; queue = served.queue }

  -- The status is mirrored onto the inner slot, if the id has one.
  unfoldable pub mirror : Blocking S → CompletionStatus → ℤ → Option SlotGuard → Blocking S
  mirror b status id none = b
  mirror b status id (some inner) = record b {
    active_slots = erase id b.active_slots;
    delegate = (complete limiter b.delegate inner status).0;
  }

  unfoldable pub on_slot_complete : Blocking S → CompletionStatus → ℤ → Blocking S
  on_slot_complete b status partition_index =
      unblock (mirror b status partition_index (find_slot partition_index b.active_slots))
