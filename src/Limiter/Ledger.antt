-- ===== src/Limiter/Ledger.antt =====
-- The counters of a limiter after any history of calls.
use limen.Base.{
  ℕ, suc, ◌+◌, ◌≡◌, refl, sym, Bool, true, false, not, ◌&&◌, ◌||◌, List, [], ◌∷◌, ◌++◌, ℤ, pos,
  ◌+ℤ◌, int32, int64, Option, none, some, String, get_elem?, set, sum_of-append, sum_of-set,
  Bool-cases, Option-cases, arith, inl, inr, if_elim, true_and_false,
}
use limen.Limit.Defs.{LimitOps}
use limen.Limiter.Guard.{CompletionStatus, SlotGuard, complete, destroy}
use limen.Limiter.Defs.{LimiterState, Gate, init, on_slot_complete, limiter_at}
use limen.Limiter.Account.{
  IsGate, Op, acquires, completes, destroys, World, live, in_flight, attempts, all_outcomes, step,
  after, attempt, hand_out, on_guard,
}
use limen.Limiter.Balance.{Accounts, granted, do_try_acquire-Accounts, on_slot_complete-Accounts}

recount :
    {L : Type 0} (n : ℕ) (s : LimiterState L) (j k : ℕ) → j ≡ k → Accounts n j s → Accounts n k s
recount n s j k e a = rw (← e) a

recount_attempts :
    {L : Type 0} (m n : ℕ) (s : LimiterState L) (k : ℕ) → m ≡ n → Accounts m k s → Accounts n k s
recount_attempts m n s k e a = rw (← e) a

module _ {L : Type 0} (limit : LimitOps L) (gate : Gate L) (bypass : Option (String → Bool))
    (laws : IsGate gate) where
  on_slot_complete-bypassed :
      (now : ℤ) (s : LimiterState L) (status : CompletionStatus) (g : SlotGuard)
      → g.bypassed ≡ true
      → on_slot_complete limit gate bypass now s status g ≡ s
  unfolding on_slot_complete
  on_slot_complete-bypassed now s status g e =
      if_elim (λ s'. s' ≡ s) g.bypassed (λ _. refl) λ f. absurd (true_and_false g.bypassed e f)

  -- A completion of a guard that has not released its slot, with the other slots in flight beside it.
  pub release-Accounts :
      (now : ℤ) (n k : ℕ) (s : LimiterState L) (g : SlotGuard) (status : CompletionStatus)
      → g.attached ≡ true
      → g.completed ≡ false
      → Accounts n (live g + k) s
      → Accounts n k (on_slot_complete limit gate bypass now s status g)
  release-Accounts now n k s g status t c a = elim (Bool-cases g.bypassed) [
    | inl b ↦
        rw (on_slot_complete-bypassed now s status g b)
          (recount n s (live g + k) k (ground arith) a)
    | inr b ↦
        on_slot_complete-Accounts limit gate bypass laws now n k s status g b
          (recount n s (live g + k) (suc k) (ground arith) a)
  ]

  complete-Accounts :
      (now : ℤ) (n k : ℕ) (s : LimiterState L) (g : SlotGuard) (status : CompletionStatus)
      → Accounts n (live g + k) s
      → let (s', g') = complete (limiter_at limit gate bypass now) s g status in
        Accounts n (live g' + k) s'
  unfolding complete
  complete-Accounts now n k s g status a = elim (Bool-cases (not g.attached || g.completed)) [
    | inl done ↦ rw done a
    | inr fresh ↦ rw fresh (
        recount n _ k (live (record g { completed = true }) + k) (ground arith)
          (release-Accounts now n k s g status (ground arith) (ground arith) a))
  ]

  destroy-Accounts :
      (now : ℤ) (n k : ℕ) (s : LimiterState L) (g : SlotGuard)
      → Accounts n (live g + k) s
      → Accounts n k (destroy (limiter_at limit gate bypass now) s g)
  unfolding destroy
  destroy-Accounts now n k s g a = elim (Bool-cases (g.attached && not g.completed)) [
    | inl held ↦
        rw held
          (release-Accounts now n k s g CompletionStatus.ignored (ground arith) (ground arith) a)
    | inr gone ↦ rw gone (recount n s (live g + k) k (ground arith) a)
  ]

  -- The other slots in flight, beside the guard at an index.
  abbrev rest_of : List SlotGuard → ℕ → SlotGuard → ℕ
  rest_of guards i g = in_flight (set guards i (record g { attached = false }))

  in_flight-set :
      (guards : List SlotGuard) (i : ℕ) (g h : SlotGuard)
      → get_elem? guards i ≡ some g
      → in_flight (set guards i h) ≡ live h + rest_of guards i g
  in_flight-set guards i g h e = omega (
    arith,
    sum_of-set live guards i g h e,
    sum_of-set live guards i g (record g { attached = false }) e,
  )

  in_flight-split :
      (guards : List SlotGuard) (i : ℕ) (g : SlotGuard)
      → get_elem? guards i ≡ some g
      → in_flight guards ≡ live g + rest_of guards i g
  in_flight-split guards i g e =
      omega (arith, sum_of-set live guards i g (record g { attached = false }) e)

  hand_out-Accounts :
      (n : ℕ) (guards : List SlotGuard) (answer : LimiterState L × Option SlotGuard)
      → Accounts n (granted answer.1 + in_flight guards) answer.0
      → let w = hand_out guards answer in Accounts n (in_flight w.guards) w.state
  unfolding hand_out
  hand_out-Accounts n guards (s, none) a = recount n s _ (in_flight guards) (omega arith) a
  hand_out-Accounts n guards (s, some g) a =
      recount n s _ (in_flight (guards ++ g ∷ []))
        (omega (arith, sum_of-append live guards (g ∷ []))) a

  on_guard-Accounts :
      (n : ℕ) (w : World L) (i : ℕ) (f : SlotGuard → LimiterState L × SlotGuard)
      → ((g : SlotGuard) (k : ℕ)
          → Accounts n (live g + k) w.state
          → Accounts n (live (f g).1 + k) (f g).0)
      → Accounts n (in_flight w.guards) w.state
      → let w' = on_guard w i (get_elem? w.guards i) f in Accounts n (in_flight w'.guards) w'.state
  unfolding on_guard
  on_guard-Accounts n w i f keep a = elim (Option-cases (get_elem? w.guards i)) [
    | inl e ↦ rw (e, on_guard) a
    | inr (g, e) ↦
        rw (e, on_guard)
          (recount n _ _ _ (sym (in_flight-set w.guards i g (f g).1 e))
            (keep g (rest_of w.guards i g) (recount n _ _ _ (in_flight-split w.guards i g e) a)))
  ]

  step-Accounts :
      (n : ℕ) (w : World L) (op : Op)
      → Accounts n (in_flight w.guards) w.state
      → let w' = step limit gate bypass w op in
        Accounts (attempt op + n) (in_flight w'.guards) w'.state
  unfolding step
  step-Accounts n w (acquires now context) a = hand_out-Accounts (1 + n) w.guards _ (
      recount_attempts (suc n) (1 + n) _ _ (omega arith)
        (do_try_acquire-Accounts limit gate bypass laws now n _ w.state context a))
  step-Accounts n w (completes now i status) a =
      recount_attempts n (0 + n) _ _ (omega arith)
        (on_guard-Accounts n w i _ (λ g k b. complete-Accounts now n k w.state g status b) a)
  step-Accounts n w (destroys now i) a = recount_attempts n (0 + n) _ _ (omega arith) (
      on_guard-Accounts n w i _
        (λ g k b. recount n _ k (0 + k) (omega arith) (destroy-Accounts now n k w.state g b)) a)

  after-balanced :
      (l : L) (history : List Op)
      → let w = after limit gate bypass l history in
        Accounts (attempts history) (in_flight w.guards) w.state
  unfolding after init int32 int64 ◌+ℤ◌
  after-balanced l [] = record { held = refl; outcomes = refl }
  after-balanced l (op ∷ past) =
      step-Accounts (attempts past) (after limit gate bypass l past) op (after-balanced l past)

  -- After any history of acquisitions, completions and destructions of guards, `InflightCount` is the
  -- number of live guards that are not bypassed, and the five outcome counters together with it add up
  -- to the number of attempts to acquire: each as an int of its width, which wraps. The gate is only
  -- assumed to keep its contract.
  pub after-Accounts :
      (l : L) (history : List Op)
      → let w = after limit gate bypass l history in
        (w.state.inflight ≡ int32 (pos (in_flight w.guards)))
        × (int64 (all_outcomes w.state.outcome_counts +ℤ pos (in_flight w.guards))
            ≡ int64 (pos (attempts history)))
  after-Accounts l history = let a = after-balanced l history in (a.held, a.outcomes)
