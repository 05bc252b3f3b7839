-- ===== src/Examples/Callers.antt =====
-- Threads in a blocking limiter over a pool with one slot.
use limen.Base.{
  ℕ, add32, int32, ◌+ℤ◌, zero, suc, ◌+◌, ◌≤◌, ◌≡◌, refl, arith, if◌then◌else◌, [], ◌∷◌, ℤ, pos,
  negsuc, Option, none, some, String, sum_of, true, false,
}
use limen.Limiter.Guard.{CompletionStatus, SlotGuard, LimiterOps, try_acquire, complete}
use limen.Blocking.Defs.{
  Blocking, fifo, init, fast_path, park, collect, on_slot_complete, erase, emplace, find_slot,
}
use limen.Blocking.Orders.{occurrences, fifo-IsDiscipline}
use limen.Limiter.Account.{live}
use limen.Limiter.Balance.{granted}
use limen.Blocking.Slots.{IsFresh, AnyFresh, IsLedger}
use limen.Blocking.Threads.{
  Pc, idle, admitted, numbered, holding, taken, releasing, walking, rejected, waiting, parked_at,
  take_slot, asks, numbers, records, takes, completes, locks, finishes, System, moves, Reach, start,
  later,
}
use limen.Blocking.Waiters.{waits, has_slot}
use limen.Blocking.Entries.{holds, entries}
use limen.Blocking.Reached.{walks, Reach-waits}
use limen.Blocking.Accounted.{Reach-carries}
use limen.Blocking.Solo.{Run, asked, returned, operations-Run}
use limen.Blocking.Quiet.{Reach-idle}

abbrev slot : SlotGuard
slot = record {
  attached = true;
  start_time_ns = pos 0;
  inflight_at_acquire = pos 1;
  partition_index = negsuc 0;
  bypassed = false;
  completed = false;
}

abbrev take_free : ℕ → String → ℕ × Option SlotGuard
take_free zero context = (zero, none)
take_free (suc n) context = (n, some slot)

abbrev pool : LimiterOps ℕ
pool = record {
  do_try_acquire = take_free;
  on_slot_complete = λ n status g. if g.bypassed then n else suc n;
}

-- The slots that are out are those of the one that are not free.
abbrev Out : ℕ → ℕ → Type 0
Out k n = n + k ≡ 1

take_free-Out :
    (k n : ℕ) (context : String)
    → Out k n
    → Out (granted (take_free n context).1 + k) (take_free n context).0
take_free-Out k zero context h = omega (arith, h)
take_free-Out k (suc n) context h = omega (arith, h)

take_free-AnyFresh : (n : ℕ) (context : String) → AnyFresh (take_free n context).1
take_free-AnyFresh zero context = tt
take_free-AnyFresh (suc n) context = record { attached = refl; pending = refl }

release-Out :
    (k n : ℕ) (g : SlotGuard)
    → IsFresh g
    → Out (live g + k) n
    → Out k (if g.bypassed then n else suc n)
release-Out k n g f h = ground (arith, f.attached, f.pending)

pool-IsLedger : IsLedger pool Out
unfolding try_acquire
pool-IsLedger = record {
  acquires = take_free-Out;
  issues = take_free-AnyFresh;
  releases = λ k n status g f h. release-Out k n g f h;
}

-- One caller takes the slot, and has it recorded; the other is idle.
abbrev started : System ℕ
started = record { state = init 1; locked = false; threads = idle ∷ idle ∷ [] }

abbrev now : Blocking ℕ → Pc → System ℕ
now b p = record { state = b; locked = false; threads = p ∷ idle ∷ [] }

abbrev one_holds : System ℕ
one_holds =
    now (record (init 0) { active_slots = (pos 0, slot) ∷ []; next_slot_id = pos 1 })
      (holding (pos 0))

holds_now : Reach pool fifo 1 one_holds
unfolding init try_acquire emplace find_slot add32 int32 ◌+ℤ◌
holds_now =
    later
      (later (later (start 2) (moves [] (idle ∷ []) idle refl (asks false "a")))
        (moves [] (idle ∷ []) (admitted slot) refl (numbers false slot)))
      (moves [] (idle ∷ []) (numbered (pos 0) slot) refl (records (pos 0) slot))

Reach-carries_example : Out (0 + (1 + 0)) 0
unfolding init
Reach-carries_example =
    Reach-carries pool Out pool-IsLedger fifo fifo-IsDiscipline 1 one_holds refl holds_now

Reach-waits_example :
    ((i : ℕ)
      → (sum_of (waits i) one_holds.threads
          ≡ occurrences i one_holds.state.queue + has_slot (one_holds.state.slot_of i))
        × (sum_of (waits i) one_holds.threads ≤ 1))
    × (sum_of walks one_holds.threads ≤ 1)
    × ((id : ℤ) → entries id one_holds.state.active_slots ≤ sum_of (holds id) one_holds.threads)
Reach-waits_example = Reach-waits pool fifo fifo-IsDiscipline 1 one_holds holds_now

-- The slot is released, and nobody waits.
abbrev given_back : System ℕ
given_back = now (record (init 1) { next_slot_id = pos 1 }) idle

back : Reach pool fifo 1 given_back
unfolding init try_acquire emplace find_slot take_slot erase complete
back =
    later
      (later
        (later
          (later holds_now
            (moves [] (idle ∷ []) (holding (pos 0)) refl (takes (pos 0) CompletionStatus.success)))
          (moves [] (idle ∷ []) (taken CompletionStatus.success slot) refl
            (completes false CompletionStatus.success slot)))
        (moves [] (idle ∷ []) releasing refl locks))
      (moves [] (idle ∷ []) walking refl (finishes refl))

Reach-idle_example :
    (given_back.state.queue ≡ [])
    × (given_back.state.active_slots ≡ [])
    × Out 0 given_back.state.delegate
Reach-idle_example =
    Reach-idle pool Out pool-IsLedger fifo fifo-IsDiscipline 1 given_back refl back (tt, (tt, tt))

operations-Run_example :
    let b = one_holds.state in
    ((context : String)
      → let r = fast_path pool b context in
        Run pool fifo b false idle r.0 false (asked context r.1))
    × ((context : String)
        → let r = park fifo b context in
          Run pool fifo b false (rejected context) r.0 false (parked_at r.1))
    × ((i : ℕ)
        → let r = collect pool fifo b i in
          Run pool fifo b false (waiting i) r.0 false (returned r.1))
    × ((status : CompletionStatus) (id : ℤ)
        → Run pool fifo b false (holding id) (on_slot_complete pool b status id) false idle)
operations-Run_example = operations-Run pool fifo one_holds.state
