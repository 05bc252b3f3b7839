-- ===== src/Blocking/Ledger.antt =====
-- No slot of the delegate is lost on its way through a blocking limiter.
use limen.Base.{ℕ, ◌+◌, ◌≡◌, refl, Bool, List, [], ◌∷◌, Option, none, some, sum_of, arith, if_elim}
use limen.Limiter.Guard.{LimiterOps}
use limen.Blocking.Defs.{
  Blocking, Discipline, find_slot, mirror, park, init, collect, on_slot_complete,
}
use limen.Blocking.Orders.{IsDiscipline}
use limen.Blocking.Frames.{
  Event, asks, parks, wakes, releases, completes, unblocks, World, now_parked, step, after, Sound,
  after-Sound, mirror-Fits,
}
use limen.Blocking.Slots.{IsLedger, delivered, held_in, find-fresh}
use limen.Blocking.Handover.{mirror-Conserves, unblock-Conserves}
use limen.Blocking.Conserve.{
  Conserves, fast_path-Conserves, parked_as-Conserves, collect_slot-Conserves, outstanding,
}

module _ {S : Type 0} (limiter : LimiterOps S) (Holds : ℕ → S → Type 0)
    (laws : IsLedger limiter Holds) (order : Discipline) (rules : IsDiscipline order) where
  now_parked-Conserves :
      (waiting : ℕ → Bool) (r : Blocking S × Option ℕ)
      → Conserves limiter Holds laws 0 r.0
      → Conserves limiter Holds laws 0 (now_parked limiter order waiting r).state
  unfolding now_parked
  now_parked-Conserves waiting (b, none) h = h
  now_parked-Conserves waiting (b, some i) h = h

  step-Conserves :
      (x : World S) (event : Event)
      → Sound limiter order x
      → Conserves limiter Holds laws 0 x.state
      → Conserves limiter Holds laws 0 (step limiter order x event).state
  unfolding step park collect on_slot_complete
  step-Conserves x (asks context) f h = fast_path-Conserves limiter Holds laws x.state context h
  step-Conserves x (parks context) f h =
      now_parked-Conserves x.waiting _ (parked_as-Conserves limiter Holds laws 0 x.state _ h)
  step-Conserves x (wakes i) f h =
      if_elim {A = World S} (λ y. Conserves limiter Holds laws 0 y.state) (x.waiting i)
        (λ t.
          collect_slot-Conserves limiter Holds laws order x.state i (x.state.slot_of i) refl
            (h.slots_fresh i) h)
        (λ n. h)
  step-Conserves x (releases status id) f h =
      let o = find_slot id x.state.active_slots in
      unblock-Conserves limiter Holds laws x.waiting (mirror limiter x.state status id o)
        (mirror-Fits limiter order x.waiting x.state status id o f)
        (mirror-Conserves limiter Holds laws x.state status id o refl
          (find-fresh id x.state.active_slots h.active_fresh) h)
  step-Conserves x (completes status id) f h =
      mirror-Conserves limiter Holds laws x.state status id (find_slot id x.state.active_slots) refl
        (find-fresh id x.state.active_slots h.active_fresh) h
  step-Conserves x unblocks f h = unblock-Conserves limiter Holds laws x.waiting x.state f h

  after-Conserves :
      (delegate : S) (history : List Event)
      → Holds 0 delegate
      → Conserves limiter Holds laws 0 (after limiter order delegate history).state
  unfolding after init
  after-Conserves delegate [] h = record {
    held = h;
    active_fresh = tt;
    slots_fresh = λ i. tt;
    beyond = λ i le. refl;
  }
  after-Conserves delegate (event ∷ past) h =
      step-Conserves (after limiter order delegate past) event
        (after-Sound limiter order rules delegate past) (after-Conserves delegate past h)

  -- Whatever order the pieces of the calls run in, the slots that the delegate counts as out are those
  -- in `active_slots_` and those delivered to a frame whose caller has not collected it yet: none is
  -- lost by a timeout, by a race of a timeout with a release, or by an id that is used again.
  pub after-outstanding :
      (delegate : S) (history : List Event)
      → Holds 0 delegate
      → let b = (after limiter order delegate history).state in
        Holds (sum_of held_in b.active_slots + delivered b.next_frame b.slot_of) b.delegate
  after-outstanding delegate history h =
      let b = (after limiter order delegate history).state in
      let zero_more : 0 + outstanding limiter Holds laws b ≡ outstanding limiter Holds laws b =
        omega arith in
      rw (← zero_more) (after-Conserves delegate history h).held
