-- ===== src/Blocking/Threads.antt =====
-- Threads in the two blocking limiters: `DoTryAcquire`, `OnSlotComplete` and `Unblock`, where a step is a
-- call of the delegate, an access to `next_slot_id_`, or a section under `mu_` that calls nothing.
-- `Unblock` holds `mu_` over several steps, between which other threads call the delegate.
use limen.Base.{
  ◌≡◌, ℕ, Bool, true, false, ℤ, pos, add32, List, ◌∷◌, [], ◌++◌, Option, none, some, String,
  replicate,
}
use limen.Limiter.Guard.{CompletionStatus, SlotGuard, LimiterOps, try_acquire, complete}
use limen.Blocking.Defs.{
  Waiter, Blocking, Discipline, init, find_slot, erase, set_slot_of, emplace, park,
}

-- Where a thread stands, with its local variables.
pub data Pc : Type 0 where
  idle : Pc
  -- the delegate said no, and the caller is about to park
  rejected : String → Pc
  -- an inner slot is in a local variable, then it has an id
  admitted : SlotGuard → Pc
  numbered : ℤ → SlotGuard → Pc
  -- parked in a frame
  waiting : ℕ → Pc
  -- the caller has the outer slot with this id
  holding : ℤ → Pc
  -- the inner slot is out of `active_slots_`, to be completed
  taken : CompletionStatus → SlotGuard → Pc
  -- before `Unblock`, then in its loop
  releasing : Pc
  walking : Pc

-- What a thread does with the delegate's answer, with the frame it parked in, with what it finds in its
-- frame, and with what it finds in `active_slots_`.
abbrev pub answered : String → Option SlotGuard → Pc
answered context none = rejected context
answered context (some inner) = admitted inner

abbrev pub parked_at : Option ℕ → Pc
parked_at none = idle
parked_at (some i) = waiting i

abbrev pub collected : Option SlotGuard → Pc
collected none = idle
collected (some inner) = admitted inner

abbrev pub found : CompletionStatus → Option SlotGuard → Pc
found status none = releasing
found status (some inner) = taken status inner

-- The section in which a caller takes what is in its frame, or else takes itself out of the queue.
unfoldable pub leave_frame :
    {S : Type 0} → Discipline → Blocking S → ℕ → Option SlotGuard → Blocking S
leave_frame order b i none = record b { queue = order.leave i b.queue }
leave_frame order b i (some inner) = record b { slot_of = set_slot_of b.slot_of i none }

-- The section in which a release takes the inner slot out.
unfoldable pub take_slot : {S : Type 0} → Blocking S → ℤ → Option SlotGuard → Blocking S
take_slot b id none = b
take_slot b id (some inner) = record b { active_slots = erase id b.active_slots }

-- The limiter, its mutex and all threads.
pub record System (S : Type 0) : Type 0 where
  pub state : Blocking S
  pub locked : Bool
  pub threads : List Pc

module _ {S : Type 0} (limiter : LimiterOps S) (order : Discipline) where
  abbrev pub with_delegate : Blocking S → S → Blocking S
  with_delegate b s = record b { delegate = s }

  -- One step of one thread. A wait may end at any time: by its notification or at its deadline.
  pub data Move (b : Blocking S) : Bool → Pc → Blocking S → Bool → Pc → Type 0 where
    asks :
        (m : Bool) (context : String)
        → Move b m idle
            (with_delegate b (try_acquire limiter b.delegate context).0)
            m
            (answered context (try_acquire limiter b.delegate context).1)
    parks :
        (context : String)
        → Move b false
            (rejected context)
            (park order b context).0
            false
            (parked_at (park order b context).1)
    numbers :
        (m : Bool) (inner : SlotGuard)
        → Move b m
            (admitted inner)
            (record b { next_slot_id = add32 b.next_slot_id (pos 1) })
            m
            (numbered b.next_slot_id inner)
    records :
        (id : ℤ) (inner : SlotGuard)
        → Move b false
            (numbered id inner)
            (emplace limiter id inner (find_slot id b.active_slots) b)
            false
            (holding id)
    wakes :
        (i : ℕ)
        → Move b false
            (waiting i)
            (leave_frame order b i (b.slot_of i))
            false
            (collected (b.slot_of i))
    takes :
        (id : ℤ) (status : CompletionStatus)
        → Move b false
            (holding id)
            (take_slot b id (find_slot id b.active_slots))
            false
            (found status (find_slot id b.active_slots))
    completes :
        (m : Bool) (status : CompletionStatus) (inner : SlotGuard)
        → Move b m
            (taken status inner)
            (with_delegate b (complete limiter b.delegate inner status).0)
            m
            releasing
    locks : Move b false releasing b true walking
    serves :
        {w : Waiter} {rest : List Waiter} {s : S} {inner : SlotGuard}
        → b.queue ≡ w ∷ rest
        → try_acquire limiter b.delegate w.context ≡ (s, some inner)
        → Move b true walking
            (record b {
              delegate = s;
              slot_of = set_slot_of b.slot_of w.frame (some inner);
              queue = rest;
            })
            true
            walking
    stops :
        {w : Waiter} {rest : List Waiter} {s : S}
        → b.queue ≡ w ∷ rest
        → try_acquire limiter b.delegate w.context ≡ (s, none)
        → Move b true walking (with_delegate b s) false idle
    finishes : b.queue ≡ [] → Move b true walking b false idle

  pub data Step (x : System S) : System S → Type 0 where
    moves :
        (before behind : List Pc) (p : Pc) {b : Blocking S} {m : Bool} {q : Pc}
        → x.threads ≡ before ++ p ∷ behind
        → Move x.state x.locked p b m q
        → Step x (record { state = b; locked = m; threads = before ++ q ∷ behind })

  -- The states that threads, all idle at first, can reach with a new limiter over the delegate.
  pub data Reach (delegate : S) : System S → Type 0 where
    start :
        (n : ℕ)
        → Reach delegate
            (record { state = init delegate; locked = false; threads = replicate n idle })
    later : {x y : System S} → Reach delegate x → Step x y → Reach delegate y
