-- ===== src/Blocking/Quiet.antt =====
-- A blocking limiter with no call under way.
use limen.Base.{ℕ, zero, suc, ◌≡◌, refl, ap, ℤ, List, [], ◌∷◌, Option, All, sum_of, arith}
use limen.Limiter.Guard.{SlotGuard, LimiterOps}
use limen.Blocking.Defs.{Waiter, Discipline}
use limen.Blocking.Orders.{occurrences, IsDiscipline}
use limen.Blocking.Slots.{IsLedger, delivered, held_in}
use limen.Blocking.Conserve.{recount}
use limen.Blocking.Threads.{Pc, idle, System, Reach}
use limen.Blocking.Waiters.{waits, has_slot}
use limen.Blocking.Carried.{carries, granted-none}
use limen.Blocking.Entries.{holds, entries}
use limen.Blocking.Reached.{Reach-waits}
use limen.Blocking.Accounted.{Reach-carries}

abbrev pub IsIdle : Pc → Type 0
IsIdle idle = Unit
IsIdle _ = ⊥

weighs_nothing :
    (w : Pc → ℕ) → w idle ≡ 0 → (threads : List Pc) → All IsIdle threads → sum_of w threads ≡ 0
weighs_nothing w e [] h = refl
weighs_nothing w e (idle ∷ rest) h = omega (arith, e, weighs_nothing w e rest h.1)
weighs_nothing w e (_ ∷ rest) h = absurd h.0

nobody : (queue : List Waiter) → ((i : ℕ) → occurrences i queue ≡ 0) → queue ≡ []
nobody [] h = refl
nobody (w ∷ rest) h = ground (arith, h w.frame)

nothing : (slots : List (ℤ × SlotGuard)) → ((id : ℤ) → entries id slots ≡ 0) → slots ≡ []
nothing [] h = refl
nothing (entry ∷ rest) h = ground (arith, h entry.0)

delivered_none :
    (n : ℕ) (slot_of : ℕ → Option SlotGuard)
    → ((i : ℕ) → has_slot (slot_of i) ≡ 0)
    → delivered n slot_of ≡ 0
delivered_none zero slot_of h = refl
delivered_none (suc n) slot_of h =
    omega (arith, granted-none (slot_of n) (h n), delivered_none n slot_of h)

module _ {S : Type 0} (limiter : LimiterOps S) (Holds : ℕ → S → Type 0)
    (laws : IsLedger limiter Holds) (order : Discipline) (rules : IsDiscipline order) where
  -- In every state that threads can reach in the blocking limiters in which each of them is idle, so
  -- that every call has returned and every slot is given back: nobody is in the queue, `active_slots_` is
  -- empty, and the delegate counts no slot as out. The delegate's count is a predicate that holds at zero
  -- in the beginning, and its calls change it as `IsLedger` says. It is assumed of the discipline that
  -- joining adds the waiter once and leaving takes one occurrence of it away.
  pub Reach-idle :
      (delegate : S) (x : System S)
      → Holds 0 delegate
      → Reach limiter order delegate x
      → All IsIdle x.threads
      → (x.state.queue ≡ []) × (x.state.active_slots ≡ []) × Holds 0 x.state.delegate
  Reach-idle delegate x h reached still =
      let (frames, walking, ids) = Reach-waits limiter order rules delegate x reached in
      let alone = λ (i : ℕ). weighs_nothing (waits i) refl x.threads still in
      let empty =
        nothing x.state.active_slots
          (λ id. omega (arith, ids id, weighs_nothing (holds id) refl x.threads still)) in
      (
        nobody x.state.queue (λ i. omega (arith, (frames i).0, alone i)),
        empty,
        recount limiter Holds laws _ _ _
            (omega (
              arith,
              weighs_nothing carries refl x.threads still,
              ap (sum_of held_in) empty,
              delivered_none x.state.next_frame x.state.slot_of
                  (λ i. omega (arith, (frames i).0, alone i)),
            ))
            (Reach-carries limiter Holds laws order rules delegate x h reached),
      )
