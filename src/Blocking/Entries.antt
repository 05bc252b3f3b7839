-- ===== src/Blocking/Entries.antt =====
-- Each entry of `active_slots_` belongs to a caller that holds the outer slot with its id.
use limen.Base.{
  ℕ, ◌+◌, ◌≤◌, ◌≡◌, refl, Bool, if◌then◌else◌, ℤ, eqb_ℤ, List, [], ◌∷◌, Option, none, some, String,
  sum_of, arith, ap, sym, Bool-cases, inl, eqb_ℤ→eq, inr,
}
use limen.Limiter.Guard.{CompletionStatus, SlotGuard, LimiterOps}
use limen.Blocking.Defs.{Waiter, Blocking, Discipline, find_slot, erase, emplace, park, parked_as}
use limen.Blocking.Threads.{
  Pc, rejected, numbered, waiting, holding, answered, parked_at, collected, found, leave_frame,
  take_slot, Move, asks, parks, numbers, records, wakes, takes, completes, locks, serves, stops,
  finishes,
}

-- The entries with an id, and the threads that hold a slot with it.
abbrev pub has_id : ℤ → ℤ × SlotGuard → ℕ
has_id id entry = if eqb_ℤ entry.0 id then 1 else 0

abbrev pub entries : ℤ → List (ℤ × SlotGuard) → ℕ
entries id = sum_of (has_id id)

abbrev pub holds : ℤ → Pc → ℕ
holds id (holding j) = if eqb_ℤ j id then 1 else 0
holds id _ = 0

-- With so many threads that hold each id.
pub record Owned {S : Type 0} (total : ℤ → ℕ) (b : Blocking S) : Type 0 where
  pub bound : (id : ℤ) → entries id b.active_slots ≤ total id

find-entries :
    (id : ℤ) (slots : List (ℤ × SlotGuard)) → find_slot id slots ≡ none → entries id slots ≡ 0
unfolding find_slot
find-entries id [] e = refl
find-entries id (entry ∷ rest) e = ground (arith, find-entries id rest)

erase-entries :
    (id j : ℤ) (slots : List (ℤ × SlotGuard)) (g : SlotGuard)
    → find_slot id slots ≡ some g
    → entries j (erase id slots) + (if eqb_ℤ id j then 1 else 0) ≡ entries j slots
unfolding find_slot erase
erase-entries id j [] g e = cc
erase-entries id j (entry ∷ rest) g e = ground (arith, erase-entries id j rest g)

holds-answered :
    (id : ℤ) (context : String) (o : Option SlotGuard) → holds id (answered context o) ≡ 0
holds-answered id context none = refl
holds-answered id context (some g) = refl

holds-collected : (id : ℤ) (o : Option SlotGuard) → holds id (collected o) ≡ 0
holds-collected id none = refl
holds-collected id (some g) = refl

-- A thread that holds an id with no entry may go.
below :
    (id j : ℤ) (slots : List (ℤ × SlotGuard)) (n : ℕ)
    → find_slot id slots ≡ none
    → entries j slots ≤ holds j (holding id) + n
    → entries j slots ≤ 0 + n
below id j slots n e h = elim (Bool-cases (eqb_ℤ id j)) [
  | inl same ↦
      omega (arith, ap (λ x. entries x slots) (eqb_ℤ→eq id j same), find-entries id slots e)
  | inr other ↦ ground arith
]

module _ {S : Type 0} (limiter : LimiterOps S) (order : Discipline) (others : ℤ → ℕ) where
  -- A thread beside the others.
  abbrev At : Blocking S → Pc → Type 0
  At b p = Owned (λ id. holds id p + others id) b

  -- A move between two places in which the thread holds nothing, with no access to `active_slots_`.
  stay :
      (b b' : Blocking S) (p q : Pc)
      → b.active_slots ≡ b'.active_slots
      → ((id : ℤ) → holds id p ≡ holds id q)
      → At b p
      → At b' q
  stay b b' p q e k h = record { bound = λ id. rw (← e, ← k id) (h.bound id) }

  parks-Owned :
      (b : Blocking S) (context : String) (o : Option (List Waiter))
      → At b (rejected context)
      → At (parked_as b o).0 (parked_at (parked_as b o).1)
  unfolding parked_as
  parks-Owned b context none h = record { bound = h.bound }
  parks-Owned b context (some queue) h = record { bound = h.bound }

  wakes-Owned :
      (b : Blocking S) (i : ℕ) (o : Option SlotGuard)
      → At b (waiting i)
      → At (leave_frame order b i o) (collected o)
  unfolding leave_frame
  wakes-Owned b i none h = record { bound = h.bound }
  wakes-Owned b i (some g) h = record { bound = h.bound }

  records-Owned :
      (b : Blocking S) (id : ℤ) (g : SlotGuard) (o : Option SlotGuard)
      → find_slot id b.active_slots ≡ o
      → At b (numbered id g)
      → At (emplace limiter id g o b) (holding id)
  unfolding emplace
  records-Owned b id g none e h = record { bound = λ j. omega (arith, h.bound j) }
  records-Owned b id g (some old) e h = record { bound = λ j. omega (arith, h.bound j) }

  takes-Owned :
      (b : Blocking S) (id : ℤ) (status : CompletionStatus) (o : Option SlotGuard)
      → find_slot id b.active_slots ≡ o
      → At b (holding id)
      → At (take_slot b id o) (found status o)
  unfolding take_slot
  takes-Owned b id status none e h = record {
    bound = λ j. below id j b.active_slots _ e (h.bound j);
  }
  takes-Owned b id status (some g) e h = record {
    bound = λ j. omega (arith, h.bound j, erase-entries id j b.active_slots g e);
  }

  pub Move-Owned :
      (b b' : Blocking S) (l l' : Bool) (p q : Pc)
      → At b p
      → Move limiter order b l p b' l' q
      → At b' q
  unfolding park
  Move-Owned b b' l l' p q h (asks m context) =
      stay b b' p q refl (λ id. sym (holds-answered id context _)) h
  Move-Owned b b' l l' p q h (parks context) = parks-Owned b context _ h
  Move-Owned b b' l l' p q h (numbers m g) = record { bound = h.bound }
  Move-Owned b b' l l' p q h (records id g) = records-Owned b id g _ refl h
  Move-Owned b b' l l' p q h (wakes i) = wakes-Owned b i (b.slot_of i) h
  Move-Owned b b' l l' p q h (takes id status) = takes-Owned b id status _ refl h
  Move-Owned b b' l l' p q h (completes m status g) = record { bound = h.bound }
  Move-Owned b b' l l' p q h locks = record { bound = h.bound }
  Move-Owned b b' l l' p q h (serves e f) = record { bound = h.bound }
  Move-Owned b b' l l' p q h (stops e f) = record { bound = h.bound }
  Move-Owned b b' l l' p q h (finishes e) = record { bound = h.bound }
