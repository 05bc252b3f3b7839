-- ===== src/Limiter/Once.antt =====
-- A slot is released exactly once.
use limen.Base.{◌≡◌, refl, true, false, List, [], ◌∷◌, arith, ◌⊎◌, inr, inl}
use limen.Limiter.Guard.{
  CompletionStatus, ignored, SlotGuard, LimiterOps, complete, destroy, move_from,
}

module _ {S : Type 0} (limiter : LimiterOps S) where
  -- Any number of completion calls on one guard.
  unfoldable pub complete_all : S → SlotGuard → List CompletionStatus → S × SlotGuard
  complete_all s g [] = (s, g)
  complete_all s g (status ∷ rest) =
      let (s', g') = complete limiter s g status in complete_all s' g' rest

  abbrev pub outcome : List CompletionStatus → CompletionStatus
  outcome [] = ignored
  outcome (status ∷ rest) = status

  complete_all-done :
      (s : S) (g : SlotGuard) (statuses : List CompletionStatus)
      → (g.attached ≡ false) ⊎ (g.completed ≡ true)
      → complete_all s g statuses ≡ (s, g)
  unfolding complete_all complete
  complete_all-done s g [] h = refl
  complete_all-done s g (status ∷ rest) h = ground (arith, complete_all-done s g rest h)

  -- However often a fresh guard is completed, by the time its destructor has run `OnSlotComplete` has
  -- been called once, with the first status, or `kIgnored` if there was none.
  pub destroy-complete_all :
      (s : S) (g : SlotGuard) (statuses : List CompletionStatus)
      → g.attached ≡ true
      → g.completed ≡ false
      → let (s', g') = complete_all s g statuses in
        destroy limiter s' g' ≡ limiter.on_slot_complete s (outcome statuses) g
  unfolding complete_all complete destroy
  destroy-complete_all s g [] a c = ground arith
  destroy-complete_all s g (status ∷ rest) a c =
      let done = record g { completed = true } in
      ground (arith, complete_all-done (limiter.on_slot_complete s status g) done rest (inr refl))

  -- A guard that has been moved from releases nothing: its completions and its destructor leave the
  -- limiter alone. The slot is released by the guard that it was moved to, and once.
  pub destroy-move_from :
      (s : S) (g : SlotGuard) (statuses : List CompletionStatus)
      → let (new, old) = move_from limiter g in
        let (s', old') = complete_all s old statuses in (destroy limiter s' old' ≡ s) × (new ≡ g)
  unfolding move_from destroy
  destroy-move_from s g statuses =
      let old = record g { attached = false } in
      ground (arith, complete_all-done s old statuses (inl refl))
