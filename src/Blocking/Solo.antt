-- ===== src/Blocking/Solo.antt =====
-- A call that no other thread comes between, as a run of steps.
use limen.Base.{ℕ, ◌≡◌, refl, Bool, true, false, ℤ, List, [], ◌∷◌, Option, none, some, String}
use limen.Limiter.Guard.{CompletionStatus, SlotGuard, make_slot, LimiterOps, try_acquire, complete}
use limen.Blocking.Defs.{
  Waiter, Blocking, Discipline, Served, find_slot, erase, set_slot_of, wrap, admit, fast_path, park,
  collect_slot, collect, serve, unblock, mirror, on_slot_complete,
}
use limen.Blocking.Threads.{
  Pc, idle, rejected, admitted, waiting, holding, releasing, walking, answered, parked_at,
  collected, found, leave_frame, take_slot, Move, asks, parks, numbers, records, wakes, takes,
  completes, locks, serves, stops, finishes, with_delegate,
}

-- Where a thread stands after the fast path, and after its wait, by what it returns.
abbrev pub asked : String → Option SlotGuard → Pc
asked context none = rejected context
asked context (some outer) = holding outer.partition_index

abbrev pub returned : Option SlotGuard → Pc
returned none = idle
returned (some outer) = holding outer.partition_index

module _ {S : Type 0} (limiter : LimiterOps S) (order : Discipline) where
  -- Steps of one thread, with nothing in between.
  pub data Run : Blocking S → Bool → Pc → Blocking S → Bool → Pc → Type 0 where
    done : {b : Blocking S} {l : Bool} {p : Pc} → Run b l p b l p
    then :
        {b b' b'' : Blocking S} {l l' l'' : Bool} {p p' p'' : Pc}
        → Move limiter order b l p b' l' p'
        → Run b' l' p' b'' l'' p''
        → Run b l p b'' l'' p''

  runs-wrap :
      (b : Blocking S) (inner : SlotGuard)
      → Run b false (admitted inner) (wrap limiter inner b).0 false (holding b.next_slot_id)
  unfolding wrap
  runs-wrap b inner = then (numbers false inner) (then (records b.next_slot_id inner) done)

  runs-admit :
      (b : Blocking S) (context : String) (answer : S × Option SlotGuard)
      → let r = admit limiter b answer in
        Run
          (with_delegate limiter order b answer.0)
          false
          (answered context answer.1)
          r.0
          false
          (asked context r.1)
  unfolding admit wrap make_slot
  runs-admit b context (s, none) = done
  runs-admit b context (s, some inner) = runs-wrap (with_delegate limiter order b s) inner

  runs-fast_path :
      (b : Blocking S) (context : String)
      → let r = fast_path limiter b context in Run b false idle r.0 false (asked context r.1)
  unfolding fast_path
  runs-fast_path b context =
      then (asks false context) (runs-admit b context (try_acquire limiter b.delegate context))

  runs-collect_slot :
      (b : Blocking S) (i : ℕ) (o : Option SlotGuard)
      → let r = collect_slot limiter order b i o in
        Run (leave_frame order b i o) false (collected o) r.0 false (returned r.1)
  unfolding collect_slot leave_frame wrap make_slot
  runs-collect_slot b i none = done
  runs-collect_slot b i (some inner) =
      runs-wrap (record b { slot_of = set_slot_of b.slot_of i none }) inner

  runs-collect :
      (b : Blocking S) (i : ℕ)
      → let r = collect limiter order b i in Run b false (waiting i) r.0 false (returned r.1)
  unfolding collect
  runs-collect b i = then (wakes i) (runs-collect_slot b i (b.slot_of i))

  abbrev served_in : Blocking S → S → (ℕ → Option SlotGuard) → List Waiter → Blocking S
  served_in b s slot_of queue = record b { delegate = s; slot_of = slot_of; queue = queue }

  runs-serve :
      (b : Blocking S) (s : S) (slot_of : ℕ → Option SlotGuard) (queue : List Waiter)
      → let r = serve limiter s slot_of queue in
        Run
          (served_in b s slot_of queue)
          true
          walking
          (served_in b r.delegate r.slot_of r.queue)
          false
          idle
  unfolding serve
  runs-serve b s slot_of [] = then (finishes refl) done
  runs-serve b s slot_of (w ∷ rest) =
      served (try_acquire limiter s w.context) refl (λ t slots. runs-serve b t slots rest)
    where
      served :
          (answer : S × Option SlotGuard)
          → try_acquire limiter s w.context ≡ answer
          → ((t : S) (slots : ℕ → Option SlotGuard)
              → let r = serve limiter t slots rest in
                Run
                  (served_in b t slots rest)
                  true
                  walking
                  (served_in b r.delegate r.slot_of r.queue)
                  false
                  idle)
          → let r : Served S = elim answer.1 [
            | none ↦ record { delegate = answer.0; slot_of = slot_of; queue = w ∷ rest }
            | some g ↦ serve limiter answer.0 (set_slot_of slot_of w.frame (some g)) rest
          ] in
            Run
              (served_in b s slot_of (w ∷ rest))
              true
              walking
              (served_in b r.delegate r.slot_of r.queue)
              false
              idle
      served (t, none) e k = then (stops refl e) done
      served (t, some g) e k = then (serves refl e) (k t (set_slot_of slot_of w.frame (some g)))

  runs-release : (b : Blocking S) → Run b false releasing (unblock limiter b) false idle
  unfolding unblock
  runs-release b = then locks (runs-serve b b.delegate b.slot_of b.queue)

  runs-mirror :
      (b : Blocking S) (status : CompletionStatus) (id : ℤ) (o : Option SlotGuard)
      → Run
          (take_slot b id o)
          false
          (found status o)
          (unblock limiter (mirror limiter b status id o))
          false
          idle
  unfolding mirror take_slot
  runs-mirror b status id none = runs-release b
  runs-mirror b status id (some inner) = then (completes false status inner) (
      runs-release (record b {
        active_slots = erase id b.active_slots;
        delegate = (complete limiter b.delegate inner status).0;
      }))

  runs-on_slot_complete :
      (b : Blocking S) (status : CompletionStatus) (id : ℤ)
      → Run b false (holding id) (on_slot_complete limiter b status id) false idle
  unfolding on_slot_complete
  runs-on_slot_complete b status id =
      then (takes id status) (runs-mirror b status id (find_slot id b.active_slots))

  -- From a state in which nobody holds `mu_`, one thread by itself can take the steps of each operation
  -- and ends in the state, and with the answer, that the operation's function gives: the fast path, the
  -- parking, the return from a wait in any frame, and the release of a slot with any status and id, with
  -- the loop of `Unblock` to its end. `mu_` is free again then.
  pub operations-Run :
      (b : Blocking S)
      → ((context : String)
          → let r = fast_path limiter b context in Run b false idle r.0 false (asked context r.1))
        × ((context : String)
            → let r = park order b context in
              Run b false (rejected context) r.0 false (parked_at r.1))
        × ((i : ℕ)
            → let r = collect limiter order b i in Run b false (waiting i) r.0 false (returned r.1))
        × ((status : CompletionStatus) (id : ℤ)
            → Run b false (holding id) (on_slot_complete limiter b status id) false idle)
  operations-Run b = (
    runs-fast_path b,
    λ context. then (parks context) done,
    runs-collect b,
    runs-on_slot_complete b,
  )
