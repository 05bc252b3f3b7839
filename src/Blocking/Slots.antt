-- ===== src/Blocking/Slots.antt =====
-- Guards in frames and in `active_slots_`, and how many of them will release a slot.
use limen.Base.{
  ℕ, zero, suc, ◌+◌, ◌≤◌, ◌<◌, ◌≡◌, refl, ap, Bool, true, false, if◌then◌else◌, ◌==◌, ==→eq, ℤ,
  eqb_ℤ, List, [], ◌∷◌, Option, none, some, String, All, sum_of, arith, if_elim, Bool-cases, inl,
  inr,
}
use limen.Limiter.Guard.{CompletionStatus, SlotGuard, LimiterOps, try_acquire}
use limen.Limiter.Account.{live}
use limen.Limiter.Balance.{granted}
use limen.Blocking.Defs.{find_slot, erase, set_slot_of}

-- A guard that will release its slot.
pub record IsFresh (g : SlotGuard) : Type 0 where
  pub attached : g.attached ≡ true
  pub pending : g.completed ≡ false

abbrev pub AnyFresh : Option SlotGuard → Type 0
AnyFresh none = Unit
AnyFresh (some g) = IsFresh g

-- What the delegate promises about a predicate "k slots are out": it hands out fresh guards, an
-- admission adds the slot, and a completion takes it off.
pub record IsLedger {S : Type 0} (limiter : LimiterOps S) (Holds : ℕ → S → Type 0) : Type 0 where
  pub acquires :
      (k : ℕ) (s : S) (context : String)
      → Holds k s
      → Holds (granted (try_acquire limiter s context).1 + k) (try_acquire limiter s context).0
  pub issues : (s : S) (context : String) → AnyFresh (try_acquire limiter s context).1
  pub releases :
      (k : ℕ) (s : S) (status : CompletionStatus) (g : SlotGuard)
      → IsFresh g
      → Holds (live g + k) s
      → Holds k (limiter.on_slot_complete s status g)

-- The slots delivered to frames below a number.
abbrev pub delivered : ℕ → (ℕ → Option SlotGuard) → ℕ
delivered zero slot_of = 0
delivered (suc n) slot_of = granted (slot_of n) + delivered n slot_of

pub delivered_same :
    (n i : ℕ) (slot_of : ℕ → Option SlotGuard) (o : Option SlotGuard)
    → n ≤ i
    → delivered n (set_slot_of slot_of i o) ≡ delivered n slot_of
delivered_same zero i slot_of o h = refl
delivered_same (suc n) i slot_of o h = ground (arith, delivered_same n i slot_of o)

pub delivered-set_self :
    (n : ℕ) (slot_of : ℕ → Option SlotGuard) (o : Option SlotGuard)
    → delivered (suc n) (set_slot_of slot_of n o) + granted (slot_of n)
      ≡ delivered (suc n) slot_of + granted o
delivered-set_self n slot_of o = ground (arith, delivered_same n n slot_of o)

pub delivered-set :
    (n i : ℕ) (slot_of : ℕ → Option SlotGuard) (o : Option SlotGuard)
    → i < n
    → delivered n (set_slot_of slot_of i o) + granted (slot_of i) ≡ delivered n slot_of + granted o
delivered-set zero i slot_of o h = elim h [ ]
delivered-set (suc n) i slot_of o h = elim (Bool-cases (n == i)) [
  | inl e ↦ rw (==→eq n i e) (delivered-set_self i slot_of o)
  | inr e ↦ ground (arith, delivered-set n i slot_of o)
]

abbrev pub held_in : ℤ × SlotGuard → ℕ
held_in entry = live entry.1

abbrev pub EntryFresh : ℤ × SlotGuard → Type 0
EntryFresh entry = IsFresh entry.1

erase_step :
    (same : Bool) (entry : ℤ × SlotGuard) (g : SlotGuard) (rest others : List (ℤ × SlotGuard))
    (found : Option SlotGuard)
    → (found ≡ some g → sum_of held_in others + live g ≡ sum_of held_in rest)
    → (if same then some entry.1 else found) ≡ some g
    → sum_of held_in (if same then rest else entry ∷ others) + live g
      ≡ held_in entry + sum_of held_in rest
erase_step true entry g rest others found k e = omega (arith, ap granted e)
erase_step false entry g rest others found k e = omega (arith, k e)

pub erase-sum :
    (id : ℤ) (slots : List (ℤ × SlotGuard)) (g : SlotGuard)
    → find_slot id slots ≡ some g
    → sum_of held_in (erase id slots) + live g ≡ sum_of held_in slots
unfolding find_slot erase
erase-sum id [] g e = cc
erase-sum id (entry ∷ rest) g e =
    erase_step (eqb_ℤ entry.0 id) entry g rest (erase id rest) (find_slot id rest)
      (erase-sum id rest g) e

pub erase-fresh :
    (id : ℤ) (slots : List (ℤ × SlotGuard)) → All EntryFresh slots → All EntryFresh (erase id slots)
unfolding erase
erase-fresh id [] h = tt
erase-fresh id (entry ∷ rest) h =
    if_elim (All EntryFresh) (eqb_ℤ entry.0 id) (λ t. h.1) (λ f. (h.0, erase-fresh id rest h.1))

pub find-fresh :
    (id : ℤ) (slots : List (ℤ × SlotGuard)) → All EntryFresh slots → AnyFresh (find_slot id slots)
unfolding find_slot
find-fresh id [] h = tt
find-fresh id (entry ∷ rest) h =
    if_elim AnyFresh (eqb_ℤ entry.0 id) (λ t. h.0) (λ f. find-fresh id rest h.1)
